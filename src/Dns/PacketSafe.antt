-- ===== src/Dns/PacketSafe.antt =====
-- Reads of a whole packet stay inside it.
use anope.Base.{
  ℕ, zero, suc, ◌+◌, ◌≤◌, ◌<◌, ◌≡◌, refl, false, ◌||◌, List, arith, Bytes, ◌==◌, length,
}
use anope.Dns.{Outcome, after, u16, byte_at, bytes_at, unpack_name}
use anope.Dns.Packet.{
  word_at, ResourceRecord, query_a, query_cname, query_ptr, query_aaaa, header_length, long_at,
  unpack_question, unpack_rdata, unpack_resource_record, unpack_all, fill,
}
use anope.Dns.Safe.{
  is_outside, after-inside, byte_at-inside, bytes_at-inside, guarded, guarded_past, u16_le,
  if-inside, unpack_name-inside,
}

module _ (ntop : Bytes → Bytes) (rounds : ℕ) (input : Bytes) (input_size : ℕ)
    (received : input_size ≤ length input) where
  word_at-inside :
      (pos : ℕ)
      → pos + 1 < input_size
      → is_outside (word_at ntop rounds input input_size pos) ≡ false
  unfolding word_at is_outside
  word_at-inside pos lt =
      after-inside (byte_at pos input) _ (byte_at-inside pos input (omega arith)) (λ high e.
        after-inside (byte_at (pos + 1) input) _ (byte_at-inside (pos + 1) input (omega arith))
          (λ low e'. refl))

  long_at-inside :
      (pos : ℕ)
      → pos + 3 < input_size
      → is_outside (long_at ntop rounds input input_size pos) ≡ false
  unfolding long_at is_outside
  long_at-inside pos lt =
      after-inside (word_at ntop rounds input input_size pos) _ (word_at-inside pos (omega arith))
        (λ high e.
          after-inside (word_at ntop rounds input input_size (pos + 2)) _
            (word_at-inside (pos + 2) (omega arith)) (λ low e'. refl))

  unpack_question-inside :
      (pos : ℕ) → is_outside (unpack_question ntop rounds input input_size pos) ≡ false
  unfolding unpack_question is_outside
  unpack_question-inside pos =
      after-inside (unpack_name input input_size rounds pos) _
        (unpack_name-inside input input_size received rounds pos)
        (λ (name, pos') e. guarded input_size (pos' + 4) _ (λ lt.
          after-inside (word_at ntop rounds input input_size pos') _
            (word_at-inside pos' (omega arith))
            (λ type e'.
              after-inside (word_at ntop rounds input input_size (u16 (pos' + 2))) _
                (word_at-inside (u16 (pos' + 2)) (omega (arith, u16_le (pos' + 2))))
                (λ qclass e''. refl))))

  unpack_rdata-inside :
      (type pos : ℕ) → is_outside (unpack_rdata ntop rounds input input_size type pos) ≡ false
  unfolding unpack_rdata is_outside
  unpack_rdata-inside type pos =
      if-inside (type == query_a) _ _
        (guarded_past input_size (pos + 4) _ (λ le.
          after-inside (bytes_at 4 pos input) _ (bytes_at-inside 4 pos input (omega arith))
            (λ addr e. refl)))
        (if-inside (type == query_aaaa) _ _
          (guarded_past input_size (pos + 16) _ (λ le.
            after-inside (bytes_at 16 pos input) _ (bytes_at-inside 16 pos input (omega arith))
              (λ addr e. refl)))
          (if-inside (type == query_cname || type == query_ptr) _ _
            (unpack_name-inside input input_size received rounds pos) refl))

  unpack_resource_record-inside :
      (pos : ℕ) → is_outside (unpack_resource_record ntop rounds input input_size pos) ≡ false
  unfolding unpack_resource_record is_outside
  unpack_resource_record-inside pos =
      after-inside (unpack_question ntop rounds input input_size pos) _ (unpack_question-inside pos)
        (λ (question, pos') e. guarded input_size (pos' + 6) _ (λ lt.
          after-inside (long_at ntop rounds input input_size pos') _
            (long_at-inside pos' (omega arith))
            (λ ttl e'.
              after-inside
                (unpack_rdata ntop rounds input input_size question.type (u16 (pos' + 6))) _
                (unpack_rdata-inside question.type (u16 (pos' + 6))) (λ (rdata, end) e''. refl))))

  unpack_all-inside :
      {A : Type 0} (unpack : ℕ → Outcome (A × ℕ))
      → ((pos : ℕ) → is_outside (unpack pos) ≡ false)
      → (count pos : ℕ)
      → is_outside (unpack_all ntop rounds input input_size unpack count pos) ≡ false
  unfolding unpack_all is_outside
  unpack_all-inside unpack safe zero pos = refl
  unpack_all-inside unpack safe (suc count) pos =
      after-inside (unpack pos) _ (safe pos) (λ (a, pos') e.
        after-inside (unpack_all ntop rounds input input_size unpack count pos') _
          (unpack_all-inside unpack safe count pos') (λ (others, end) e'. refl))

  -- A word of the header.
  header :
      {A : Type 0} (pos : ℕ) (k : ℕ → Outcome A)
      → header_length ≤ input_size
      → pos + 1 < header_length
      → ((word : ℕ) → is_outside (k word) ≡ false)
      → is_outside (after (word_at ntop rounds input input_size pos) k) ≡ false
  header pos k long lt rest =
      after-inside (word_at ntop rounds input input_size pos) k (word_at-inside pos (omega arith))
        (λ word e. rest word)

  records :
      {A : Type 0} (count pos : ℕ) (k : List ResourceRecord × ℕ → Outcome A)
      → ((r : List ResourceRecord × ℕ) → is_outside (k r) ≡ false)
      → is_outside (
          after
            (unpack_all ntop rounds input input_size
              (unpack_resource_record ntop rounds input input_size)
              count
              pos)
            k)
        ≡ false
  records count pos k rest =
      after-inside
        (unpack_all ntop rounds input input_size
          (unpack_resource_record ntop rounds input input_size) count pos)
        k
        (unpack_all-inside (unpack_resource_record ntop rounds input input_size)
          unpack_resource_record-inside count pos)
        (λ r e. rest r)

  -- Whatever a packet holds, `Fill` never reads a byte that the buffer does not have, where the length
  -- received is at most that of the buffer: it fills the packet, throws an exception, or still runs
  -- after the rounds allowed in a name.
  pub fill-inside : is_outside (fill ntop rounds input input_size) ≡ false
  unfolding fill is_outside
  fill-inside = guarded_past input_size header_length _ (λ long.
      header 0 _ long (omega arith) (λ id. header 2 _ long (omega arith) (λ flags.
        header 4 _ long (omega arith) (λ qdcount. header 6 _ long (omega arith) (λ ancount.
          header 8 _ long (omega arith) (λ nscount. header 10 _ long (omega arith) (λ arcount.
            after-inside
              (unpack_all ntop rounds input input_size
                (unpack_question ntop rounds input input_size) qdcount header_length)
              _
              (unpack_all-inside (unpack_question ntop rounds input input_size)
                unpack_question-inside qdcount header_length)
              (λ (questions, pos) e. records ancount pos _ (λ (answers, pos').
                records nscount pos' _ (λ (authorities, pos'').
                  records arcount pos'' _ (λ (additional, end). refl)))))))))))
