-- ===== src/Sbuf.antt =====
-- The string buffers of src/str_util.h. The memory from `mem` to `end` is a list of bytes, and `ptr` is
-- an index into it.
pub mod Text
pub mod Refines
use c_dns_pkt.Prelude.{
  ℕ, ◌+◌, ◌-◌, Bool, [], ◌∷◌, length, Option, none, some, Exec, ok, ◌>>=◌, ltb, leb, ◌==◌,
  if◌then◌else◌,
}
use c_dns_pkt.Mem.{Bytes, Str, or_empty, write_at}

-- struct sbuf
pub record Sbuf : Type 0 where
  pub mem : Bytes
  pub ptr : ℕ

-- A null pointer for the memory leaves a buffer of no bytes.
unfoldable pub sbuf_init : Option Bytes → Sbuf
sbuf_init mem = record { mem = or_empty mem; ptr = 0 }

unfoldable pub sbuf_reset : Sbuf → Sbuf
sbuf_reset buf = record buf { ptr = 0 }

unfoldable pub sbuf_len : Sbuf → ℕ
sbuf_len buf = length buf.mem

unfoldable pub sbuf_rem : Sbuf → ℕ
sbuf_rem buf = length buf.mem - buf.ptr

unfoldable pub sbuf_pos : Sbuf → ℕ
sbuf_pos buf = buf.ptr

unfoldable pub sbuf_end : Sbuf → Bool
sbuf_end buf = leb (length buf.mem) buf.ptr

-- The index of the space that is reserved, or `none` for NULL.
unfoldable pub sbuf_mksp : Sbuf → ℕ → Sbuf × Option ℕ
sbuf_mksp buf len =
    if ltb (sbuf_rem buf) len
    then (buf, none)
    else (record buf { ptr = buf.ptr + len }, some buf.ptr)

unfoldable pub sbuf_endz : Sbuf → Exec Sbuf
sbuf_endz buf =
    if ltb buf.ptr (length buf.mem)
    then (do mem ← write_at buf.ptr (0 ∷ []) buf.mem; ok (record buf { mem = mem }))
    else ok buf

-- `if (!wptr) return 0;` and what follows.
abbrev pub in_space : Sbuf × Option ℕ → (Sbuf → ℕ → Exec (Sbuf × ℕ)) → Exec (Sbuf × ℕ)
in_space (buf, none) next = ok (buf, 0)
in_space (buf, some wptr) next = next buf wptr

-- A store through a pointer into the buffer.
abbrev pub sbuf_store : Sbuf → ℕ → Bytes → Exec Sbuf
sbuf_store buf wptr bs = do mem ← write_at wptr bs buf.mem; ok (record buf { mem = mem })

-- `mem` is its `len` bytes. The number of bytes that are appended is returned.
unfoldable pub sbuf_putm : Sbuf → Bytes → Exec (Sbuf × ℕ)
sbuf_putm buf mem =
    in_space (sbuf_mksp buf (length mem))
      (λ buf wptr. do buf ← sbuf_store buf wptr mem; ok (buf, length mem))

unfoldable pub sbuf_putmc : Sbuf → Bytes → ℕ → Exec (Sbuf × ℕ)
sbuf_putmc buf mem c = in_space (sbuf_mksp buf (length mem + 1)) (λ buf wptr. do
  buf ← sbuf_store buf wptr mem
  buf ← sbuf_store buf (wptr + length mem) (c ∷ [])
  ok (buf, length mem + 1))

unfoldable pub sbuf_putmz : Sbuf → Bytes → Exec (Sbuf × ℕ)
sbuf_putmz buf mem = sbuf_putmc buf mem 0

unfoldable pub sbuf_putcm : Sbuf → ℕ → Bytes → Exec (Sbuf × ℕ)
sbuf_putcm buf c mem = in_space (sbuf_mksp buf (length mem + 1)) (λ buf wptr. do
  buf ← sbuf_store buf wptr (c ∷ [])
  buf ← sbuf_store buf (wptr + 1) mem
  ok (buf, length mem + 1))

unfoldable pub sbuf_puticm : Sbuf → ℕ → Bytes → Exec (Sbuf × ℕ)
sbuf_puticm buf ch mem = if sbuf_pos buf == 0 then sbuf_putm buf mem else sbuf_putcm buf ch mem

unfoldable pub sbuf_puts : Sbuf → Str → Exec (Sbuf × ℕ)
sbuf_puts buf none = ok (buf, 0)
sbuf_puts buf (some str) = sbuf_putm buf str

unfoldable pub sbuf_putcs : Sbuf → ℕ → Str → Exec (Sbuf × ℕ)
sbuf_putcs buf ch none = ok (buf, 0)
sbuf_putcs buf ch (some str) = sbuf_putcm buf ch str
