-- ===== src/Wire/RoundTrip/Packets.antt =====
-- Whole packets read back.
use mathlib.Core.Option
use chat_bot.Base.{
  ℕ, ◌^◌, ◌<◌, ◌≤◌, ◌≡◌, refl, subst, sym, ◌∙◌, ap, arith, Option, some, [], ◌++◌, length,
  length-append, append-nil, le→ltb, ==_iff,
}
use chat_bot.Wire.Host.{Host}
use chat_bot.Wire.Reader.{ok, Bytes}
use chat_bot.Wire.Dto.{
  StructDto, message, message_chat, chat, user, user_login, user_login_password, responce,
  PacketDto,
}
use chat_bot.Wire.Decode.{read_struct, read_header, after_header, deserialize_from_binary}
use chat_bot.Wire.Encode.{
  write_u32, write_struct, class_of, write_body, write_header, serialize_to_binary,
}
use chat_bot.Wire.RoundTrip.Rules.{Reads, Reads-bind, Reads-last}
use chat_bot.Wire.RoundTrip.Numbers.{length-write_u32, Reads-u32}
use chat_bot.Wire.RoundTrip.Structs.{
  FitsStruct, received, received_packet, sent, sent_body, FitsPacket, Reads-struct,
  write_struct_nonempty,
}

module _ (host : Host) where
  pub length-write_header : (p : PacketDto) → length (write_header host p) ≡ 12
  unfolding write_header
  length-write_header p = omega (
    arith,
    length-append (write_u32 host p.request_type)
        (write_u32 host p.struct_dto_class_type ++ write_u32 host p.req_direction),
    length-append (write_u32 host p.struct_dto_class_type) (write_u32 host p.req_direction),
    length-write_u32 host p.request_type,
    length-write_u32 host p.struct_dto_class_type,
    length-write_u32 host p.req_direction,
  )

  pub Reads-header :
      (p : PacketDto)
      → p.request_type < 2 ^ 32
      → p.struct_dto_class_type < 2 ^ 32
      → p.req_direction < 2 ^ 32
      → Reads
          (read_header host)
          (write_header host p)
          (p.request_type, p.struct_dto_class_type, p.req_direction)
  unfolding read_header write_header
  Reads-header p h k l = Reads-bind _ (Reads-u32 host p.request_type h) (
      Reads-bind _ (Reads-u32 host p.struct_dto_class_type k)
        (Reads-last _ (Reads-u32 host p.req_direction l)))

  class_of-lt : (dto : StructDto) → class_of dto < 2 ^ 32
  class_of-lt (responce r) = omega arith
  class_of-lt (user_login u) = omega arith
  class_of-lt (user_login_password u) = omega arith
  class_of-lt (user u) = omega arith
  class_of-lt (chat c) = omega arith
  class_of-lt (message_chat c) = omega arith
  class_of-lt (message m) = omega arith

  write_body_lem :
      (dto : StructDto) → write_body host (class_of dto) (some dto) ≡ ok (write_struct host dto)
  unfolding write_body
  write_body_lem dto = rw ((==_iff (class_of dto) (class_of dto)).1 refl)

  write_body_fits :
      (dto : StructDto) (class_type : ℕ) (ptr : Option StructDto)
      → ptr ≡ some dto
      → class_type ≡ class_of dto
      → write_body host class_type ptr ≡ ok (write_struct host dto)
  write_body_fits dto class_type ptr e k = rw (e, k) (write_body_lem dto)

  -- The body of a packet is written where the class names the structure behind the pointer.
  pub serialize_fits :
      (p : PacketDto) (fits : FitsPacket host p) → serialize_to_binary host p ≡ ok (sent host p)
  unfolding serialize_to_binary
  serialize_fits p fits =
      rw (write_body_fits fits.dto _ _ fits.points fits.class_fits, serialize_to_binary)
        (ap (λ (body : Bytes). ok (write_header host p ++ body))
          (sym (ap (sent_body host) fits.points)))

  after_header_ok :
      (unset request class_type direction : ℕ) (body rest : Bytes) (dto : StructDto)
      → read_struct host unset class_type body ≡ ok (dto, rest)
      → after_header host unset (ok ((request, class_type, direction), body))
        ≡ ok (record {
          request_type = request;
          struct_dto_class_type = class_type;
          req_direction = direction;
          struct_dto_ptr = some dto;
        })
  unfolding after_header
  after_header_ok unset request class_type direction body rest dto e = rw (e, after_header)

  read_struct_whole :
      (unset : ℕ) (dto : StructDto)
      → FitsStruct dto
      → read_struct host unset (class_of dto) (write_struct host dto) ≡ ok (received unset dto, [])
  read_struct_whole unset dto h = rw append-nil at ((Reads-struct host unset dto h).run [])

  deserialize_sent :
      (unset : ℕ) (p : PacketDto) (fits : FitsPacket host p)
      → deserialize_from_binary host unset (write_header host p ++ write_struct host fits.dto)
        ≡ ok (received_packet unset p)
  unfolding deserialize_from_binary
  deserialize_sent unset p fits =
      let long : 13 ≤ length (write_header host p ++ write_struct host fits.dto) = omega (
        arith,
        length-append (write_header host p) (write_struct host fits.dto),
        length-write_header p,
        write_struct_nonempty host fits.dto,
      ) in
      let small : p.struct_dto_class_type < 2 ^ 32 =
        omega (arith, fits.class_fits, class_of-lt fits.dto) in
      let body : read_struct host unset p.struct_dto_class_type (write_struct host fits.dto)
          ≡ ok (received unset fits.dto, []) =
        rw fits.class_fits (read_struct_whole unset fits.dto fits.dto_fits) in
      rw
        (
          le→ltb _ 13 long,
          (Reads-header p fits.request_fits small fits.direction_fits).run
              (write_struct host fits.dto),
        )
        (after_header_ok unset _ _ _ _ [] _ body
          ∙ ap (λ o. ok (record p { struct_dto_ptr = Option.map (received unset) o }))
              (sym fits.points))

  pub deserialize_fits :
      (unset : ℕ) (p : PacketDto)
      → FitsPacket host p
      → deserialize_from_binary host unset (sent host p) ≡ ok (received_packet unset p)
  deserialize_fits unset p fits =
      subst
        (λ (body : Bytes).
          deserialize_from_binary host unset (write_header host p ++ body)
          ≡ ok (received_packet unset p))
        (sym (ap (sent_body host) fits.points)) (deserialize_sent unset p fits)

  -- What deSerializeFromBinary makes of the bytes that serializeToBinary writes for a packet
  -- whose parts fit their fields: both return, and the packet comes back as `received_packet`.
  pub deserialize-serialize :
      (unset : ℕ) (p : PacketDto)
      → FitsPacket host p
      → (bytes : Bytes) × (serialize_to_binary host p ≡ ok bytes)
        × (deserialize_from_binary host unset bytes ≡ ok (received_packet unset p))
  deserialize-serialize unset p fits =
      (sent host p, serialize_fits p fits, deserialize_fits unset p fits)
