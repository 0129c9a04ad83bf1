-- ===== src/Dns/Tests.antt =====
-- Tests and witnesses for the packets and names.
use anope.Base.{◌≡◌, refl, false, List, [], ◌∷◌, ◌++◌, arith, Bytes, codes, All}
use anope.Dns.{
  Outcome, ok, refused, outside, unfinished, after, byte_at, bytes_at, unpack_name, u16, add_label,
  unpack_label, unpack_round, unpack_loop,
}
use anope.Dns.Safe.{is_outside}
use anope.Dns.Packet.{
  fill, ResourceRecord, DnsPacket, word_at, long_at, unpack_question, unpack_rdata,
  unpack_resource_record, unpack_all,
}
use anope.Dns.PacketSafe.{fill-inside}
use anope.Dns.Overflow.{pack_name_over}
use anope.Dns.Endless.{unpack_name-endless, IsCycle}
use anope.Dns.Pack.{pack_name, put_byte, put_bytes, pack_labels}
use anope.Dns.Written.{IsDnsLabel}
use anope.Dns.RoundTrip.{unpack_name-pack_name, write_read}
use anope.Tokens.Join.{join, joined}
use anope.Text.{is_empty}
use anope.Tokens.{tokens, trim_end, tokens_loop}

empty_token : tokens b'.' (codes "a..b.") ≡ codes "a" ∷ [] ∷ codes "b" ∷ []
unfolding tokens tokens_loop trim_end is_empty
empty_token = refl

-- An answer: `irc.ex`, and its address by a pointer to the name.
abbrev answer : Bytes
answer =
    0 ∷ 7 ∷ 129 ∷ 128 ∷ 0 ∷ 1 ∷ 0 ∷ 1 ∷ 0 ∷ 0 ∷ 0 ∷ 0 ∷ []
    ++ 3 ∷ codes "irc"
    ++ 2 ∷ codes "ex"
    ++ 0 ∷ 0 ∷ 1 ∷ 0 ∷ 1 ∷ []
    ++ 192 ∷ 12 ∷ 0 ∷ 1 ∷ 0 ∷ 1 ∷ 0 ∷ 0 ∷ 1 ∷ 44 ∷ 0 ∷ 4 ∷ 10 ∷ 0 ∷ 0 ∷ 9 ∷ []

abbrev answers_of : Outcome DnsPacket → Outcome (List ResourceRecord)
answers_of (ok p) = ok p.answers
answers_of refused = refused
answers_of outside = outside
answers_of unfinished = unfinished

answer_filled :
    answers_of (fill (λ addr. addr) 5 answer 40)
    ≡ ok (
        record {
          question = record { name = codes "irc.ex"; type = 1; qclass = 1 };
          ttl = 300;
          rdata = 10 ∷ 0 ∷ 0 ∷ 9 ∷ [];
        }
        ∷ [])
unfolding fill after word_at byte_at unpack_all unpack_question unpack_name unpack_loop unpack_round
    unpack_label bytes_at u16 unpack_resource_record long_at unpack_rdata add_label is_empty
answer_filled = refl

fill-inside_example : is_outside (fill (λ addr. addr) 5 answer 40) ≡ false
fill-inside_example = fill-inside (λ addr. addr) 5 answer 40 (omega arith)

-- A label `a` and a pointer to it.
abbrev looped : Bytes
looped = 1 ∷ b'a' ∷ 192 ∷ 0 ∷ 0 ∷ []

looped-IsCycle : IsCycle looped 5 0 1 192 0 (codes "a")
unfolding byte_at bytes_at after
looped-IsCycle = record {
  length_byte = refl;
  no_pointer = refl;
  label_bytes = refl;
  high_byte = refl;
  pointer = refl;
  low_byte = refl;
  target = refl;
  inside = omega arith;
  short = omega arith;
}

unpack_name-endless_example : unpack_name looped 5 1000 0 ≡ unfinished
unpack_name-endless_example = unpack_name-endless looped 5 0 1 192 0 (codes "a") looped-IsCycle 1000

irc_ex : All IsDnsLabel (codes "irc" ∷ codes "ex" ∷ [])
irc_ex = (
  ((λ e. cc, (omega arith, (omega arith, (omega arith, tt)))), omega arith),
  (((λ e. cc, (omega arith, (omega arith, tt))), omega arith), tt),
)

abbrev buffer : Bytes
buffer = 0 ∷ 7 ∷ 9 ∷ 9 ∷ 9 ∷ 9 ∷ 9 ∷ 9 ∷ 9 ∷ 9 ∷ 5 ∷ 5 ∷ []

name_packed :
    pack_name buffer 12 2 (codes "irc.ex")
    ≡ ok (10, 0 ∷ 7 ∷ 3 ∷ codes "irc" ++ 2 ∷ codes "ex" ++ 0 ∷ 5 ∷ 5 ∷ [])
unfolding pack_name after pack_labels tokens tokens_loop put_byte put_bytes trim_end u16 is_empty
name_packed = refl

unpack_name-pack_name_example :
    write_read buffer 12 2 2 (codes "irc.ex") ≡ ok (codes "irc.ex", (10, 10))
unfolding join joined
unpack_name-pack_name_example =
    unpack_name-pack_name (codes "irc") (codes "ex" ∷ []) buffer 2 1 irc_ex (omega arith)
      (omega arith) (omega arith)

pack_name_over_example : pack_name buffer 12 6 (codes "irc.ex") ≡ outside
unfolding join joined
pack_name_over_example =
    pack_name_over (codes "irc") (codes "ex" ∷ []) buffer 6 irc_ex (omega arith) (omega arith)
      (omega arith) (omega arith)
