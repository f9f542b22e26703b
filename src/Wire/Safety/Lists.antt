-- ===== src/Wire/Safety/Lists.antt =====
-- What the packet-list functions do with malformed input.
use native.Mathlib.Decide.{dec_lt}
use chat_bot.Base.{
  ℕ, zero, suc, ◌≤◌, ◌<◌, ◌≡◌, ◌≢◌, ◌↔◌, ◌⊎◌, inl, inr, refl, sym, ◌∙◌, arith, List, [], length,
  lt→ltb, le→ltb,
}
use chat_bot.Wire.Host.{Host}
use chat_bot.Wire.Reader.{
  Exception, wrong_packet_size, Outcome, ok, throw, fault, Bytes, Reader, pure, read_u32,
  read_times,
}
use chat_bot.Wire.Dto.{PacketDto}
use chat_bot.Wire.Decode.{read_packet, cleared, after_count, deserialize_packet_list}
use chat_bot.Wire.Safety.Rules.{Takes-u32, bind-eq-ok, throw-ne-ok, fault-ne-ok}

-- A counted loop that returns has made all of its rounds.
length-read_times :
    {A : Type 0} (m : Reader A) (count : ℕ) (bytes rest : Bytes) (items : List A)
    → read_times count m bytes ≡ ok (items, rest)
    → length items ≡ count
unfolding read_times pure
length-read_times m zero bytes rest items e = ground arith
length-read_times m (suc count) bytes rest items e =
    let (a, more, h, k) = bind-eq-ok m _ bytes e in
    let (tail, last, l, p) = bind-eq-ok (read_times count m) _ more k in
    ground (arith, length-read_times m count more last tail l)

module _ (host : Host) (unset : ℕ) where
  list_too_short :
      (buffer : Bytes)
      → length buffer < 4
      → deserialize_packet_list host unset buffer ≡ throw wrong_packet_size
  unfolding deserialize_packet_list
  list_too_short buffer short = rw (lt→ltb _ 4 short)

  from_count :
      (buffer : Bytes) {count : ℕ} {rest : Bytes}
      → 4 ≤ length buffer
      → read_u32 host buffer ≡ ok (count, rest)
      → deserialize_packet_list host unset buffer
        ≡ cleared (read_times count (read_packet host unset) rest)
  unfolding deserialize_packet_list after_count
  from_count buffer long e = rw (le→ltb _ 4 long, e)

  cleared-ne-throw : (r : Outcome (List PacketDto × Bytes)) {x : Exception} → cleared r ≢ throw x
  cleared-ne-throw (ok (packets, rest)) e = cc
  cleared-ne-throw (throw y) e = cc
  cleared-ne-throw fault e = cc

  -- deSerializePacketList throws on the buffers below 4 bytes, and on no other: what a longer
  -- buffer makes it throw is caught.
  pub deserialize_list-eq-throw :
      (buffer : Bytes)
      → ((x : Exception) × (deserialize_packet_list host unset buffer ≡ throw x))
        ↔ (length buffer < 4)
  deserialize_list-eq-throw buffer =
      (throws, λ short. (wrong_packet_size, list_too_short buffer short))
    where
      throws :
          ((x : Exception) × (deserialize_packet_list host unset buffer ≡ throw x))
          → length buffer < 4
      throws (x, p) = elim (dec_lt (length buffer) 4) [
        | yes short ↦ short
        | no long ↦
            let (count, rest, e, size) = (Takes-u32 host).run buffer (omega arith) in
            absurd (cleared-ne-throw _ (sym (from_count buffer (omega arith) e) ∙ p))
      ]

  cleared_cases :
      (count : ℕ) (bytes : Bytes) (r : Outcome (List PacketDto × Bytes)) (packets : List PacketDto)
      → read_times count (read_packet host unset) bytes ≡ r
      → cleared r ≡ ok packets
      → (packets ≡ []) ⊎ (length packets ≡ count)
  cleared_cases count bytes (ok (items, rest)) packets h e =
      inr (ground (arith, length-read_times (read_packet host unset) count bytes rest items h))
  cleared_cases count bytes (throw x) packets h e = inl (ground arith)
  cleared_cases count bytes fault packets h e = absurd (fault-ne-ok e)

  -- It is all or nothing: the list that deSerializePacketList returns is empty, or holds as many
  -- packets as the first word of the buffer says.
  pub deserialize_list_all_or_nothing :
      (buffer : Bytes) (packets : List PacketDto)
      → deserialize_packet_list host unset buffer ≡ ok packets
      → (packets ≡ []) ⊎ ((rest : Bytes) × (read_u32 host buffer ≡ ok (length packets, rest)))
  deserialize_list_all_or_nothing buffer packets e = elim (dec_lt (length buffer) 4) [
    | yes short ↦ absurd (throw-ne-ok (sym (list_too_short buffer short) ∙ e))
    | no long ↦
        let (count, rest, h, size) = (Takes-u32 host).run buffer (omega arith) in
        elim (cleared_cases count rest _ packets refl
          (sym (from_count buffer (omega arith) h) ∙ e)) [
            | inl none_left ↦ inl none_left
            | inr full ↦ inr (rest, rw full h)
          ]
  ]
