-- ===== src/Dns/Name/Decode/Safe.antt =====
-- `decode_name` of src/dns_proto.c on any packet: accesses and the end of the loop.
use c_dns_pkt.Prelude.{
  ℕ, zero, suc, ◌-◌, ◌≤◌, ◌<◌, ◌≡◌, ◌≢◌, refl, Bool, ◌⊎◌, inl, inr, [], ◌∷◌, length, Exec, ok, some,
  true, get_elem?, get_elem?-append_end, fault, stuck, ◌>>=◌, ℤ, pos, negsuc, ltb, leb, ◌==◌,
  if◌then◌else◌, arith, Bool-cases,
}
use c_dns_pkt.Mem.{Bytes}
use c_dns_pkt.Dns.{dns_enonull}
use c_dns_pkt.Dns.Name.Decode.{
  Decoded, named, failed, NameVars, Round, again, break, return, emit, round, finish, name_loop,
  name_fuel, name_start, decode_name,
}
use c_dns_pkt.Dns.Name.Decode.Rounds.{
  emit_total, start-Room, suc_ne, Counted, counted, IsSafe, measure, RoundSafe, round_safe, Within,
  Room-Within,
}

module _ (pkt : Bytes) (store : Bool) (nlen : ℕ) where
  -- A name leaves `dec->offset` inside of the packet and fits the output buffer; what was written
  -- is as long as the count that is returned and has a zero byte. An error leaves the offset inside
  -- of the packet, or where it was.
  abbrev pub NameSafe : ℕ → Exec Decoded → Type 0
  NameSafe start (ok (named offset name rc)) =
      (offset ≤ length pkt) × (rc ≤ nlen) × Counted store rc name
  NameSafe start (ok (failed offset ec name)) =
      ((offset ≤ length pkt) ⊎ (offset ≡ start)) × (0 < ec) × Within store nlen name
  NameSafe start fault = ⊥
  NameSafe start stuck = ⊥

  stored_fits : (v : NameVars) → IsSafe pkt store nlen v → Within store nlen v.name
  stored_fits v s = Room-Within store nlen v.name v.out_len s.room

  zero_stored :
      (before name : Bytes)
      → emit pkt store nlen before (0 ∷ []) ≡ ok name
      → store ≡ true
      → (k : ℕ) × (get_elem? name k ≡ some 0)
  unfolding emit
  zero_stored before name q e = (length before, ground (arith, get_elem?-append_end before 0))

  end_safe :
      (start : ℕ) (v : NameVars)
      → IsSafe pkt store nlen v
      → v.out_len ≢ 0
      → NameSafe start (do
        name ← emit pkt store nlen v.name (0 ∷ [])
        let out_len = if store then v.out_len - 1 else v.out_len
        ok (named v.offset name (nlen - out_len)))
  end_safe start v s h =
      let (name, q, room) =
        emit_total pkt store nlen v.name v.out_len (0 ∷ []) s.room (omega arith) in
      rw q (
        s.offset_le,
        omega arith,
        counted store nlen v.name name v.out_len h s.room room (zero_stored v.name name q),
      )

  finish_safe :
      (start : ℕ) (v : NameVars) (l : ℤ)
      → v.len ≡ l
      → IsSafe pkt store nlen v
      → NameSafe start (finish pkt store nlen v)
  unfolding finish
  finish_safe start v (negsuc n) e s =
      rw (e, finish) (inl s.offset_le, omega arith, stored_fits v s)
  finish_safe start v (pos zero) e s = elim (Bool-cases (v.out_len == 0)) [
    | inl z ↦ rw (e, finish, z) (inl s.offset_le, omega arith, stored_fits v s)
    | inr z ↦ rw (e, finish, z) (end_safe start v s (ground arith))
  ]
  finish_safe start v (pos (suc n)) e s =
      rw (e, finish, suc_ne n) (inl s.offset_le, omega arith, stored_fits v s)

  after_round :
      (start : ℕ) (v : NameVars) (loop : NameVars → Exec Decoded) (r : Exec Round)
      → RoundSafe pkt store nlen v r
      → ((w : NameVars)
          → IsSafe pkt store nlen w
          → measure pkt store nlen w < measure pkt store nlen v
          → NameSafe start (loop w))
      → NameSafe start (do
        end ← r
        elim end [ again w ↦ loop w | break w ↦ finish pkt store nlen w | return d ↦ ok d ])
  after_round start v loop (ok (again w)) (s, m) next = next w s m
  after_round start v loop (ok (break w)) s next = finish_safe start w w.len refl s
  after_round start v loop (ok (return (failed offset ec name))) s next = (inl s.0, s.1, s.2)
  after_round start v loop (ok (return (named offset name rc))) s next = absurd s
  after_round start v loop fault s next = absurd s
  after_round start v loop stuck s next = absurd s

  loop_safe :
      (start fuel : ℕ) (v : NameVars)
      → IsSafe pkt store nlen v
      → measure pkt store nlen v < fuel
      → NameSafe start (name_loop pkt store nlen fuel v)
  unfolding name_loop
  loop_safe start zero v s m = absurd (omega arith)
  loop_safe start (suc fuel) v s m = elim (Bool-cases (ltb v.pkt_idx (length pkt))) [
    | inl e ↦ rw e (
        after_round start v (name_loop pkt store nlen fuel) (round pkt store nlen v)
          (round_safe pkt store nlen v s (ground arith))
          (λ w s' m'. loop_safe start fuel w s' (omega arith)))
    | inr e ↦ rw e (finish_safe start v v.len refl s)
  ]

  past_end :
      (fuel offset : ℕ)
      → 0 < fuel
      → length pkt < offset
      → name_loop pkt store nlen fuel (name_start pkt store nlen offset)
        ≡ ok (failed offset dns_enonull [])
  unfolding name_loop finish
  past_end zero offset f h = elim f [ ]
  past_end (suc fuel) offset f h = ground arith

  -- On any packet, from any offset, `decode_name` ends and stays within the packet and the output
  -- buffer. A name leaves the offset within the packet, and returns a count that the buffer holds
  -- and that is the number of bytes stored, one at least; a zero byte is among them. An error leaves the offset within the
  -- packet, or where it was, its code is positive, and what was stored till then fits the
  -- output buffer.
  pub decode_name-NameSafe : (offset : ℕ) → NameSafe offset (decode_name pkt store nlen offset)
  unfolding decode_name
  decode_name-NameSafe offset = elim (Bool-cases (leb offset (length pkt))) [
    | inl e ↦
        loop_safe offset (name_fuel pkt store nlen) (name_start pkt store nlen offset)
          (record {
            idx = ground arith;
            jumps = omega arith;
            offset_le = ground arith;
            together = λ _. refl;
            room = start-Room store nlen;
          })
          (omega arith)
    | inr e ↦
        rw (past_end (name_fuel pkt store nlen) offset (omega arith) (ground arith))
          (inr refl, omega arith, Room-Within store nlen [] nlen (start-Room store nlen))
  ]
