-- ===== src/Tests.antt =====
-- Runs of the code on concrete inputs, and the theorems at such inputs.
mod Words
mod Codes
mod Strings
mod Encode
mod Names
mod Messages
mod Decode
mod Captures
