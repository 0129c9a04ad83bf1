-- ===== src/Dns/Endless.antt =====
-- A pointer back to the label before it, in `UnpackName`.
use anope.Base.{
  ℕ, zero, suc, ◌+◌, ◌<◌, ◌≡◌, refl, ◌∙◌, true, false, [], arith, Bytes, ltb, leb, ◌==◌,
  if◌then◌else◌,
}
use anope.Dns.Safe.{u16_small}
use anope.Dns.{
  ok, unfinished, after, u16, byte_at, bytes_at, is_pointer, pointed, add_label, Rest, unpack_label,
  unpack_round, unpack_loop, unpack_name,
}

pointer_byte : (offset : ℕ) → is_pointer offset ≡ true → (offset == 0) ≡ false
pointer_byte zero pointer = absurd (ground (arith, pointer))
pointer_byte (suc n) pointer = ground arith

module _ (input : Bytes) (input_size at n high low : ℕ) (label : Bytes) where
  -- `n` bytes of a label stand behind the place `at`, and then a pointer to `at`.
  pub record IsCycle : Type 0 where
    pub length_byte : byte_at at input ≡ ok n
    pub no_pointer : is_pointer n ≡ false
    pub label_bytes : bytes_at n (suc at) input ≡ ok label
    pub high_byte : byte_at (at + (n + 1)) input ≡ ok high
    pub pointer : is_pointer high ≡ true
    pub low_byte : byte_at (at + (n + 1) + 1) input ≡ ok low
    pub target : pointed high low ≡ at
    pub inside : at + (n + 1) + 1 < input_size
    pub short : input_size < 65536

module _ (input : Bytes) (input_size at n high low : ℕ) (label : Bytes)
    (cycle : IsCycle input input_size at n high low label) where
  label_step :
      (rest : Rest) (name : Bytes) (pos : ℕ)
      → unpack_label input input_size rest name n at pos
        ≡ rest
            (add_label name label)
            (at + (n + 1))
            (if ltb pos (at + (n + 1)) then at + (n + 1) else pos)
  unfolding unpack_label after
  label_step rest name pos =
      let room : leb input_size (at + n) ≡ false = ground (arith, cycle.inside) in
      let more : leb input_size (at + (n + 1)) ≡ false = ground (arith, cycle.inside) in
      rw
        (
          room,
          cycle.label_bytes,
          u16_small (at + (n + 1)) (omega (arith, cycle.inside, cycle.short)),
          more,
          cycle.high_byte,
          pointer_byte high cycle.pointer,
        )
        refl

  at_label :
      (rest : Rest) (name : Bytes) (pos : ℕ)
      → unpack_round input input_size rest name at pos
        ≡ rest
            (add_label name label)
            (at + (n + 1))
            (if ltb pos (at + (n + 1)) then at + (n + 1) else pos)
  unfolding unpack_round after
  at_label rest name pos = rw (cycle.length_byte, cycle.no_pointer) (label_step rest name pos)

  at_pointer :
      (rest : Rest) (name : Bytes) (pos : ℕ)
      → unpack_round input input_size rest name (at + (n + 1)) pos
        ≡ rest
            (add_label name label)
            (at + (n + 1))
            (if ltb (u16 (pos + 1)) (at + (n + 1)) then at + (n + 1) else u16 (pos + 1))
  unfolding unpack_round after
  at_pointer rest name pos =
      let room : leb input_size (at + (n + 1) + 1) ≡ false = ground (arith, cycle.inside) in
      let here : leb input_size at ≡ false = ground (arith, cycle.inside) in
      rw
        (
          cycle.high_byte, cycle.pointer, room, cycle.low_byte, cycle.target, here,
          cycle.length_byte,
        )
        (label_step rest name (u16 (pos + 1)))

  turns :
      (rounds : ℕ) (name : Bytes) (pos : ℕ)
      → unpack_loop input input_size rounds name (at + (n + 1)) pos ≡ unfinished
  unfolding unpack_loop
  turns zero name pos = refl
  turns (suc rounds) name pos =
      at_pointer (unpack_loop input input_size rounds) name pos
      ∙ turns rounds (add_label name label)
          (if ltb (u16 (pos + 1)) (at + (n + 1)) then at + (n + 1) else u16 (pos + 1))

-- Where a label is followed by a pointer back to it, `UnpackName` at that label never comes to an end:
-- no number of rounds is enough.
pub unpack_name-endless :
    (input : Bytes) (input_size at n high low : ℕ) (label : Bytes)
    → IsCycle input input_size at n high low label
    → (rounds : ℕ) → unpack_name input input_size rounds at ≡ unfinished
unfolding unpack_name unpack_loop
unpack_name-endless input input_size at n high low label cycle zero =
    let here : leb input_size at ≡ false = ground (arith, cycle.inside) in rw here refl
unpack_name-endless input input_size at n high low label cycle (suc rounds) =
    let here : leb input_size at ≡ false = ground (arith, cycle.inside) in
    rw here (
      at_label input input_size at n high low label cycle (unpack_loop input input_size rounds) []
        at
      ∙ turns input input_size at n high low label cycle rounds (add_label [] label)
          (if ltb at (at + (n + 1)) then at + (n + 1) else at))
