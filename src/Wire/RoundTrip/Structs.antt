-- ===== src/Wire/RoundTrip/Structs.antt =====
-- The structure behind a packet's pointer reads back, whatever its class.
use mathlib.Core.Option
use chat_bot.Base.{
  ℕ, ◌^◌, ◌<◌, ◌≤◌, ◌≡◌, ap, arith, Option, none, some, [], ◌++◌, length, length-append, append-nil,
}
use chat_bot.Wire.Host.{Host}
use chat_bot.Wire.Reader.{Bytes}
use chat_bot.Wire.Dto.{
  StructDto, message, message_chat, chat, user, user_login, user_login_password, responce,
  PacketDto,
}
use chat_bot.Wire.Decode.{wrap, read_struct}
use chat_bot.Wire.Encode.{
  write_u32, write_string, write_struct, class_of, write_header, write_responce, write_user_login,
  write_user_login_password, write_user, write_chat, write_message_chat, write_message,
}
use chat_bot.Wire.RoundTrip.Rules.{Reads, Reads-last}
use chat_bot.Wire.RoundTrip.Numbers.{length-write_u32, write_u64_leads}
use chat_bot.Wire.RoundTrip.Account.{
  FitsText, FitsResponce, FitsUser, Reads-responce, Reads-user_login, Reads-user_login_password,
  Reads-user,
}
use chat_bot.Wire.RoundTrip.Conversation.{
  FitsChat, FitsMessage, FitsMessageChat, received_chat, received_message_chat, Reads-chat,
  Reads-message, Reads-message_chat,
}

abbrev pub FitsStruct : StructDto → Type 0
FitsStruct (responce r) = FitsResponce r
FitsStruct (user_login u) = FitsText u.login
FitsStruct (user_login_password u) = FitsText u.login × FitsText u.passwordhash
FitsStruct (user u) = FitsUser u
FitsStruct (chat c) = FitsChat c
FitsStruct (message_chat c) = FitsMessageChat c
FitsStruct (message m) = FitsMessage m

-- What arrives: all of the structure, but for the two fields that the format changes.
abbrev pub received : ℕ → StructDto → StructDto
received unset (chat c) = chat (received_chat c)
received unset (message_chat c) = message_chat (received_message_chat unset c)
received unset (responce r) = responce r
received unset (user_login u) = user_login u
received unset (user_login_password u) = user_login_password u
received unset (user u) = user u
received unset (message m) = message m

abbrev pub received_packet : ℕ → PacketDto → PacketDto
received_packet unset p = record p { struct_dto_ptr = Option.map (received unset) p.struct_dto_ptr }

-- The bytes of a packet: its header, and the structure behind its pointer.
abbrev pub sent_body : Host → Option StructDto → Bytes
sent_body host none = []
sent_body host (some dto) = write_struct host dto

abbrev pub sent : Host → PacketDto → Bytes
sent host p = write_header host p ++ sent_body host p.struct_dto_ptr

-- A packet that is built as the program builds them: the class names the structure that the
-- pointer holds, and every part fits its field.
pub record FitsPacket (host : Host) (p : PacketDto) : Type 0 where
  pub dto : StructDto
  pub points : p.struct_dto_ptr ≡ some dto
  pub class_fits : p.struct_dto_class_type ≡ class_of dto
  pub request_fits : p.request_type < 2 ^ 32
  pub direction_fits : p.req_direction < 2 ^ 32
  pub dto_fits : FitsStruct dto
  pub size_fits : length (sent host p) < 2 ^ 32

module _ (host : Host) (unset : ℕ) where
  pub Reads-struct :
      (dto : StructDto)
      → FitsStruct dto
      → Reads (read_struct host unset (class_of dto)) (write_struct host dto) (received unset dto)
  unfolding read_struct write_struct wrap
  Reads-struct (responce r) h = Reads-last _ (Reads-responce host r h)
  Reads-struct (user_login u) h = Reads-last _ (Reads-user_login host u h)
  Reads-struct (user_login_password u) h = Reads-last _ (Reads-user_login_password host u h.0 h.1)
  Reads-struct (user u) h = Reads-last _ (Reads-user host u h)
  Reads-struct (chat c) h = Reads-last _ (Reads-chat host c h)
  Reads-struct (message_chat c) h = Reads-last _ (Reads-message_chat host unset c h)
  Reads-struct (message m) h = Reads-last _ (Reads-message host m h)

module _ (host : Host) where
  write_string_leads : (s rest : Bytes) → 4 ≤ length (write_string host s ++ rest)
  unfolding write_string
  write_string_leads s rest = omega (
    arith,
    length-append (write_u32 host (length s) ++ s) rest,
    length-append (write_u32 host (length s)) s,
    length-write_u32 host (length s),
  )

  pub write_struct_nonempty : (dto : StructDto) → 1 ≤ length (write_struct host dto)
  unfolding write_struct write_responce write_user_login write_user_login_password write_user
      write_chat write_message_chat write_message
  write_struct_nonempty (responce r) = omega arith
  write_struct_nonempty (user_login u) =
      omega
        (arith, write_string_leads u.login [], ap length (append-nil (write_string host u.login)))
  write_struct_nonempty (user_login_password u) = omega (arith, write_string_leads u.login _)
  write_struct_nonempty (user u) = omega (arith, write_string_leads u.login _)
  write_struct_nonempty (chat c) = omega (arith, write_u64_leads host c.chat_id _)
  write_struct_nonempty (message_chat c) = omega (arith, write_u64_leads host c.chat_id _)
  write_struct_nonempty (message m) = omega (arith, write_u64_leads host m.chat_id _)
