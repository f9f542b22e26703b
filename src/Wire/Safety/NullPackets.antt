-- ===== src/Wire/Safety/NullPackets.antt =====
-- Packets whose structDTOPtr is null: what serializeToBinary writes for them, and what the
-- receiver makes of a list that holds one.
use chat_bot.Base.{
  ℕ, ◌^◌, ◌≤◌, ◌<◌, ◌≡◌, ◌≢◌, refl, sym, ◌∙◌, subst, arith, Option, none, List, [], ◌∷◌, ◌++◌,
  append_assoc, length, length-append, All, lt→ltb, le→ltb,
}
use chat_bot.Wire.Host.{Host}
use chat_bot.Wire.Reader.{
  Exception, wrong_packet_size, internal_data_error, Outcome, ok, throw, fault, Bytes, Reader,
  ◌>>=◌, ◌>>◌, need, call, read_times,
}
use chat_bot.Wire.Dto.{StructDto, PacketDto}
use chat_bot.Wire.ClassType
use chat_bot.Wire.Decode.{
  deserialize_from_binary, read_packet, after_count, deserialize_packet_list,
}
use chat_bot.Wire.Encode.{
  each, write_u32, write_body, write_header, serialize_to_binary, append_frame, write_packets,
  serialize_packet_list,
}
use chat_bot.Wire.RoundTrip.Rules.{Reads}
use chat_bot.Wire.RoundTrip.Numbers.{write_u32_leads, Reads-u32, Reads-range}
use chat_bot.Wire.RoundTrip.Structs.{FitsPacket, sent, received_packet}
use chat_bot.Wire.RoundTrip.Packets.{length-write_header, serialize_fits}
use chat_bot.Wire.RoundTrip.PacketLists.{frame, Reads-packet}
use chat_bot.Wire.Safety.Rules.{throw-ne-ok, fault-ne-ok}

-- On `bytes`, whatever follows them, `m` throws `e`.
record Throws {ℓ} {A : Type ℓ} (e : Exception) (m : Reader A) (bytes : Bytes) : Type ℓ where
  run : (rest : Bytes) → m (bytes ++ rest) ≡ throw e

module _ {ℓ κ} {A : Type ℓ} {B : Type κ} where
  Throws-bind :
      {e : Exception} {m : Reader A} (f : A → Reader B) {bytes more : Bytes} {a : A}
      → Reads m bytes a
      → Throws e (f a) more
      → Throws e (m >>= f) (bytes ++ more)
  unfolding ◌>>=◌
  Throws-bind f {bytes} {more} h k = record {
    run = λ rest. rw append_assoc (rw (h.run (more ++ rest), ◌>>=◌) (k.run rest));
  }

  Throws-first :
      {e : Exception} {m : Reader A} (f : A → Reader B) {bytes : Bytes}
      → Throws e m bytes
      → Throws e (m >>= f) bytes
  unfolding ◌>>=◌
  Throws-first f h = record { run = λ rest. rw (h.run rest, ◌>>=◌) }

  Throws-last_call :
      {e : Exception} {m : Reader A} (f : A → Outcome B) {bytes : Bytes} {a : A}
      → Reads m bytes a
      → f a ≡ throw e
      → Throws e (m >>= λ x. call (f x)) bytes
  unfolding ◌>>=◌ call
  Throws-last_call f h k = record { run = λ rest. rw (h.run rest, ◌>>=◌) (rw (k, call)) }

module _ {ℓ} {A : Type ℓ} where
  Throws-need :
      {e : Exception} (n : ℕ) {m : Reader A} {bytes : Bytes}
      → n ≤ length bytes
      → Throws e m bytes
      → Throws e (need n >> m) bytes
  unfolding need ◌>>◌ ◌>>=◌
  Throws-need n {m} {bytes} fits h = record {
    run = λ rest.
        rw (le→ltb (length (bytes ++ rest)) n (omega (arith, length-append bytes rest)), ◌>>=◌)
          (h.run rest);
  }

  Throws-times :
      {e : Exception} (m : Reader A) {B : Type 0} (f : B → Bytes) (g : B → A) (P : B → Type 0)
      (bad : Bytes)
      → ((b : B) → P b → Reads m (f b) (g b))
      → Throws e m bad
      → (bs qs : List B) (b : B) → All P bs
      → Throws e (read_times (length (bs ++ b ∷ qs)) m) (each f bs ++ bad)
  unfolding read_times each
  Throws-times m f g P bad reads throws [] qs b all = Throws-first _ throws
  Throws-times m f g P bad reads throws (x ∷ bs) qs b all =
      subst (Throws _ _) (sym (append_assoc (f x) (each f bs) bad)) (
        Throws-bind _ (reads x all.0)
          (Throws-first _ (Throws-times m f g P bad reads throws bs qs b all.1)))

ok-injective {ℓ} : {A : Type ℓ} {a b : A} → ok a ≡ ok b → a ≡ b
ok-injective e = cc

module _ (host : Host) where
  write_body_null :
      (class_type : ℕ) (ptr : Option StructDto)
      → ptr ≡ none
      → class_type ≢ ClassType.responce
      → write_body host class_type ptr ≡ throw internal_data_error
  unfolding write_body
  write_body_null class_type ptr e h = rw e (ground arith)

  -- Of a packet with a null pointer only the header is written.
  serialize_null :
      (p : PacketDto)
      → p.struct_dto_ptr ≡ none
      → p.struct_dto_class_type ≢ ClassType.responce
      → serialize_to_binary host p ≡ ok (write_header host p)
  unfolding serialize_to_binary
  serialize_null p e h = rw (write_body_null _ _ e h, serialize_to_binary)

  -- For responceDTO alone the null check is missing: the null pointer is dereferenced.
  pub serialize_null_responce :
      (p : PacketDto)
      → p.struct_dto_ptr ≡ none
      → p.struct_dto_class_type ≡ ClassType.responce
      → serialize_to_binary host p ≡ fault
  unfolding serialize_to_binary
  serialize_null_responce p e k =
      rw (null_body p.struct_dto_class_type p.struct_dto_ptr e k, serialize_to_binary)
    where
      null_body :
          (class_type : ℕ) (ptr : Option StructDto)
          → ptr ≡ none
          → class_type ≡ ClassType.responce
          → write_body host class_type ptr ≡ fault
      null_body class_type ptr e k = rw (e, k) (unfold write_body in refl)

  append_frame-eq-ok :
      (first later : Outcome Bytes) (all : Bytes)
      → append_frame host first later ≡ ok all
      → (bytes more : Bytes) × (first ≡ ok bytes)
        × (later ≡ ok more)
        × (all ≡ write_u32 host (length bytes) ++ (bytes ++ more))
  append_frame-eq-ok (ok bytes) (ok more) all e = (bytes, more, refl, refl, cc)
  append_frame-eq-ok (ok bytes) (throw x) all e = absurd (throw-ne-ok e)
  append_frame-eq-ok (ok bytes) fault all e = absurd (fault-ne-ok e)
  append_frame-eq-ok (throw x) later all e = absurd (throw-ne-ok e)
  append_frame-eq-ok fault later all e = absurd (fault-ne-ok e)

  -- The frame of a packet of which only the header was written.
  abbrev bare : PacketDto → Bytes
  bare p = write_u32 host (length (write_header host p)) ++ write_header host p

  write_packets_null :
      (ps qs : List PacketDto) (p : PacketDto) (all : Bytes)
      → All (FitsPacket host) ps
      → serialize_to_binary host p ≡ ok (write_header host p)
      → write_packets host (ps ++ p ∷ qs) ≡ ok all
      → (more : Bytes) × (all ≡ (each (frame host) ps ++ bare p) ++ more)
  unfolding write_packets each
  write_packets_null [] qs p all fit e h =
      let (bytes, more, k, l, shape) = append_frame-eq-ok _ _ all h in
      let same : bytes ≡ write_header host p = ok-injective (sym k ∙ e) in
      (more, (rw same at shape) ∙ sym (append_assoc _ _ more))
  write_packets_null (x ∷ ps) qs p all fit e h =
      let (bytes, later, k, l, shape) = append_frame-eq-ok _ _ all h in
      let (more, tail) = write_packets_null ps qs p later fit.1 e l in
      let same : bytes ≡ sent host x = ok-injective (sym k ∙ serialize_fits host x fit.0) in
      (more, simp append_assoc (simp append_assoc at (rw (same, tail) at shape)))

  deserialize_short :
      (unset : ℕ) (buffer : Bytes)
      → length buffer < 13
      → deserialize_from_binary host unset buffer ≡ throw wrong_packet_size
  unfolding deserialize_from_binary
  deserialize_short unset buffer short = rw (lt→ltb _ 13 short)

  Throws-bare :
      (unset : ℕ) (p : PacketDto) → Throws wrong_packet_size (read_packet host unset) (bare p)
  unfolding read_packet
  Throws-bare unset p =
      Throws-need 4 (write_u32_leads host (length (write_header host p)) (write_header host p)) (
        Throws-bind _ (Reads-u32 host _ (omega (arith, length-write_header host p))) (
          Throws-need _ (omega arith) (
            Throws-last_call (deserialize_from_binary host unset)
              (Reads-range (write_header host p))
              (deserialize_short unset (write_header host p)
                (omega (arith, length-write_header host p))))))

  after_count_throws :
      (unset count : ℕ) (body : Bytes) {x : Exception}
      → read_times count (read_packet host unset) body ≡ throw x
      → after_count host unset (ok (count, body)) ≡ ok []
  unfolding after_count
  after_count_throws unset count body e = rw (e, after_count)

  list_of_null :
      (unset count : ℕ) (body : Bytes) {x : Exception}
      → count < 2 ^ 32
      → read_times count (read_packet host unset) body ≡ throw x
      → deserialize_packet_list host unset (write_u32 host count ++ body) ≡ ok []
  unfolding deserialize_packet_list
  list_of_null unset count body few e =
      rw (le→ltb _ 4 (write_u32_leads host count body), (Reads-u32 host count few).run body)
        (after_count_throws unset count body e)

  serialize_list-eq-ok :
      (ps : List PacketDto) (bytes : Bytes)
      → serialize_packet_list host ps ≡ ok bytes
      → (body : Bytes) × (write_packets host ps ≡ ok body)
        × (bytes ≡ write_u32 host (length ps) ++ body)
  unfolding serialize_packet_list
  serialize_list-eq-ok ps bytes e = ground arith

  -- One packet with a null pointer, of a class other than responceDTO, loses the whole list: where
  -- serializePacketList writes a list of fewer than 2 ^ 32 packets, whose packets before the null
  -- one fit their fields, deSerializePacketList returns the empty list.
  pub null_packet_drops_list :
      (unset : ℕ) (ps qs : List PacketDto) (p : PacketDto) (bytes : Bytes)
      → All (FitsPacket host) ps
      → p.struct_dto_ptr ≡ none
      → p.struct_dto_class_type ≢ ClassType.responce
      → length (ps ++ p ∷ qs) < 2 ^ 32
      → serialize_packet_list host (ps ++ p ∷ qs) ≡ ok bytes
      → deserialize_packet_list host unset bytes ≡ ok []
  null_packet_drops_list unset ps qs p bytes fit null other few e =
      let (body, written, shape) = serialize_list-eq-ok (ps ++ p ∷ qs) bytes e in
      let (more, tail) =
        write_packets_null ps qs p body fit (serialize_null p null other) written in
      let loop : Throws wrong_packet_size
          (read_times (length (ps ++ p ∷ qs)) (read_packet host unset))
          (each (frame host) ps ++ bare p) =
        Throws-times _ (frame host) (received_packet unset) (FitsPacket host) (bare p)
          (Reads-packet host unset) (Throws-bare unset p) ps qs p fit in
      rw (shape, tail) (list_of_null unset _ _ few (loop.run more))
