-- ===== src/Request.antt =====
-- Requests of the Qt version: the client's processingRequestToServerCore of
-- Shark_3_0_Qt/src/client/core/client_core.cpp, which puts a header packet in front, and the
-- server's PacketParser of Shark_3_0_Qt/src/server/packet_parser/packet_parser.cpp, which takes it off.
pub mod Accepts
pub mod ShortHeader
mod Tests
use chat_bot.Base.{
  ℕ, ◌+◌, ◌^◌, ◌<◌, ◌≡◌, ◌≢◌, refl, sym, ap, ◌∙◌, Bool, true, false, not, Option, none, some, List,
  [], ◌∷◌, map, All, arith, ◌==◌, if◌then◌else◌, length, Option-cases,
}
use chat_bot.Wire.ClassType
use chat_bot.Wire.Host.{Host}
use chat_bot.Wire.Reader.{
  Bytes, Outcome, ok, throw, fault, empty_packet, header_wrong_type, header_wrong_data,
}
use chat_bot.Wire.Dto.{PacketDto, StructDto, user_login_password, UserLoginPasswordDto}
use chat_bot.Wire.Decode.{deserialize_packet_list}
use chat_bot.Wire.Encode.{serialize_packet_list}
use chat_bot.Wire.RoundTrip.Structs.{received_packet, FitsPacket}
use chat_bot.Wire.RoundTrip.PacketLists.{deserialize_list-serialize_list}
use chat_bot.Text.Utf8.{same_text}

-- "UserHeder"
abbrev pub user_heder : Bytes
user_heder = 85 ∷ 115 ∷ 101 ∷ 114 ∷ 72 ∷ 101 ∷ 100 ∷ 101 ∷ 114 ∷ []

-- The login of the active user, or "!".
unfoldable pub header_login : Option Bytes → Bytes
header_login none = 33 ∷ []
header_login (some login) = login

unfoldable pub header_packet : Option Bytes → ℕ → PacketDto
header_packet active_login request_type = record {
  request_type = request_type;
  struct_dto_class_type = ClassType.user_login_password;
  req_direction = 1;
  struct_dto_ptr = some (
      user_login_password
        (record { login = header_login active_login; passwordhash = user_heder }));
}

-- What the client sends.
unfoldable pub send_packets : Option Bytes → ℕ → List PacketDto → List PacketDto
send_packets active_login request_type packets = header_packet active_login request_type ∷ packets

-- The reference to the header is used behind the erasure of the first packet: the slot holds the
-- next packet then, as vectors move their elements down.
unfoldable pub parsed : List PacketDto → Outcome (ℕ × List PacketDto)
parsed [] = throw empty_packet
parsed (slot ∷ packets) = ok (slot.request_type, slot ∷ packets)

unfoldable pub check_login : UserLoginPasswordDto → List PacketDto → Outcome (ℕ × List PacketDto)
check_login login_packet packets =
    if not (same_text login_packet.passwordhash user_heder)
    then throw header_wrong_type
    else if length login_packet.login == 0
    then throw header_wrong_data
    else parsed packets

-- A null pointer, or one to a structure of another type, is no UserLoginPasswordDTO.
unfoldable pub check_header : Option StructDto → List PacketDto → Outcome (ℕ × List PacketDto)
check_header (some (user_login_password login_packet)) packets = check_login login_packet packets
check_header _ packets = fault

unfoldable pub parse_packets : List PacketDto → Outcome (ℕ × List PacketDto)
parse_packets [] = throw empty_packet
parse_packets (header ∷ packets) =
    if not (header.struct_dto_class_type == ClassType.user_login_password)
    then throw header_wrong_type
    else check_header header.struct_dto_ptr packets

module _ (host : Host) where
  unfoldable pub parse_incoming : ℕ → Bytes → Outcome (ℕ × List PacketDto)
  parse_incoming unset buffer = elim (deserialize_packet_list host unset buffer) [
    | ok packets ↦ parse_packets packets
    | throw e ↦ throw e
    | fault ↦ fault
  ]

  pub parse_incoming-eq-ok :
      (unset : ℕ) (buffer : Bytes) (packets : List PacketDto)
      → deserialize_packet_list host unset buffer ≡ ok packets
      → parse_incoming unset buffer ≡ parse_packets packets
  unfolding parse_incoming
  parse_incoming-eq-ok unset buffer packets h = rw (h, parse_incoming)

  parse_sent :
      (unset : ℕ) (active_login : Option Bytes) (request_type : ℕ) (p : PacketDto)
      (ps : List PacketDto)
      → active_login ≢ some []
      → parse_packets
          (map (received_packet unset) (send_packets active_login request_type (p ∷ ps)))
        ≡ ok (p.request_type, map (received_packet unset) (p ∷ ps))
  unfolding parse_packets check_header check_login parsed send_packets header_packet header_login
      same_text
  parse_sent unset none request_type p ps named = refl
  parse_sent unset (some []) request_type p ps named = absurd (named refl)
  parse_sent unset (some (c ∷ login)) request_type p ps named = ground arith

  -- The server parses what the client sends: for packets that fit, the header included, and a user
  -- whose login is not empty, the client's bytes parse as the packets that follow the header, in
  -- order, with the request type of the first of these, not that of the header.
  pub parse_incoming-send_packets :
      (unset : ℕ) (active_login : Option Bytes) (request_type : ℕ) (p : PacketDto)
      (ps : List PacketDto)
      → active_login ≢ some []
      → length (send_packets active_login request_type (p ∷ ps)) < 2 ^ 32
      → All (FitsPacket host) (send_packets active_login request_type (p ∷ ps))
      → (bytes : Bytes) × (serialize_packet_list host
            (send_packets active_login request_type (p ∷ ps))
          ≡ ok bytes)
        × (parse_incoming unset bytes ≡ ok (p.request_type, map (received_packet unset) (p ∷ ps)))
  parse_incoming-send_packets unset active_login request_type p ps named few fits =
      let sent = send_packets active_login request_type (p ∷ ps) in
      let (bytes, written, read) = deserialize_list-serialize_list host unset sent few fits in
      (
        bytes,
        written,
        parse_incoming-eq-ok unset bytes (map (received_packet unset) sent) read
            ∙ parse_sent unset active_login request_type p ps named,
      )
