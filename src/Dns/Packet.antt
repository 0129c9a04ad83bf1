-- ===== src/Dns/Packet.antt =====
-- src/dns.cpp: `UnpackQuestion`, `UnpackResourceRecord` and `Fill`. `ntop` is `sockaddrs::ntop` with
-- `addr`: the text of the 4 or 16 bytes of an address. The time at which a record was made is left out.
use Prim.Native.Nat.{bit_or}
use anope.Base.{
  ℕ, zero, suc, ◌+◌, ◌*◌, ◌^◌, ◌||◌, List, [], ◌∷◌, Bytes, ltb, leb, ◌==◌, if◌then◌else◌,
}
use anope.Dns.{Outcome, ok, refused, after, u16, byte_at, bytes_at, unpack_name}

pub record Question : Type 0 where
  pub name : Bytes
  pub type : ℕ
  pub qclass : ℕ

pub record ResourceRecord : Type 0 where
  pub question : Question
  pub ttl : ℕ
  pub rdata : Bytes

pub record DnsPacket : Type 0 where
  pub id : ℕ
  pub flags : ℕ
  pub questions : List Question
  pub answers : List ResourceRecord
  pub authorities : List ResourceRecord
  pub additional : List ResourceRecord

abbrev pub query_a : ℕ
query_a = 1

abbrev pub query_cname : ℕ
query_cname = 5

abbrev pub query_ptr : ℕ
query_ptr = 12

abbrev pub query_aaaa : ℕ
query_aaaa = 28

abbrev pub header_length : ℕ
header_length = 12

module _ (ntop : Bytes → Bytes) (rounds : ℕ) (input : Bytes) (input_size : ℕ) where
  -- Two bytes, `input[pos] << 8 | input[pos + 1]`.
  unfoldable pub word_at : ℕ → Outcome ℕ
  word_at pos =
      after (byte_at pos input)
        (λ high. after (byte_at (pos + 1) input) (λ low. ok (bit_or (high * 2 ^ 8) low)))

  -- Four bytes, the first one the highest.
  unfoldable pub long_at : ℕ → Outcome ℕ
  long_at pos =
      after (word_at pos)
        (λ high. after (word_at (pos + 2)) (λ low. ok (bit_or (high * 2 ^ 16) low)))

  unfoldable pub unpack_question : ℕ → Outcome (Question × ℕ)
  unpack_question pos = after (unpack_name input input_size rounds pos) (λ (name, pos').
      if leb input_size (pos' + 4)
      then refused
      else after (word_at pos') (λ type.
        after (word_at (u16 (pos' + 2)))
          (λ qclass. ok (record { name = name; type = type; qclass = qclass }, u16 (pos' + 4)))))

  -- The data of a record, by its type; that of another type is not read, nor passed over.
  unfoldable pub unpack_rdata : ℕ → ℕ → Outcome (Bytes × ℕ)
  unpack_rdata type pos =
      if type == query_a
      then (if ltb input_size (pos + 4)
          then refused
          else after (bytes_at 4 pos input) (λ addr. ok (ntop addr, u16 (pos + 4))))
      else if type == query_aaaa
      then (if ltb input_size (pos + 16)
          then refused
          else after (bytes_at 16 pos input) (λ addr. ok (ntop addr, u16 (pos + 16))))
      else if type == query_cname || type == query_ptr
      then unpack_name input input_size rounds pos
      else ok ([], pos)

  unfoldable pub unpack_resource_record : ℕ → Outcome (ResourceRecord × ℕ)
  unpack_resource_record pos = after (unpack_question pos) (λ (question, pos').
      if leb input_size (pos' + 6)
      then refused
      else after (long_at pos') (λ ttl.
        after (unpack_rdata question.type (u16 (pos' + 6)))
          (λ (rdata, end). ok (record { question = question; ttl = ttl; rdata = rdata }, end))))

  -- `count` times `push_back` of what is unpacked.
  unfoldable pub unpack_all : {A : Type 0} → (ℕ → Outcome (A × ℕ)) → ℕ → ℕ → Outcome (List A × ℕ)
  unpack_all unpack zero pos = ok ([], pos)
  unpack_all unpack (suc count) pos =
      after (unpack pos)
        (λ (a, pos'). after (unpack_all unpack count pos') (λ (others, end). ok (a ∷ others, end)))

  -- `Fill`, with the length received.
  unfoldable pub fill : Outcome DnsPacket
  fill =
      if ltb input_size header_length
      then refused
      else after (word_at 0) (λ id. after (word_at 2) (λ flags. after (word_at 4) (λ qdcount.
        after (word_at 6) (λ ancount. after (word_at 8) (λ nscount. after (word_at 10) (λ arcount.
          after (unpack_all unpack_question qdcount header_length) (λ (questions, pos).
            after (unpack_all unpack_resource_record ancount pos) (λ (answers, pos').
              after (unpack_all unpack_resource_record nscount pos') (λ (authorities, pos'').
                after (unpack_all unpack_resource_record arcount pos'') (λ (additional, end).
                  ok (record {
                    id = id;
                    flags = flags;
                    questions = questions;
                    answers = answers;
                    authorities = authorities;
                    additional = additional;
                  })))))))))))
