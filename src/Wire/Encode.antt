-- ===== src/Wire/Encode.antt =====
-- serializeToBinary and serializePacketList of core/system/serialize.cpp. `buffer` grows only at
-- its end, so each part is the list of bytes that it appends.
use chat_bot.Base.{
  ℕ, ◌/◌, ◌%◌, ◌^◌, Bool, true, false, Option, none, some, List, [], ◌∷◌, ◌++◌, leb, ◌==◌,
  if◌then◌else◌, length,
}
use chat_bot.Base.Int.{to_u64}
use chat_bot.Wire.Host.{Host, to_big_endian64}
use chat_bot.Wire.Reader.{Outcome, ok, throw, fault, internal_data_error, Bytes}
use chat_bot.Wire.Dto.{
  MessageContentDto, MessageDto, MessageChatDto, ParticipantsDto, ChatDto, UserDto, UserLoginDto,
  UserLoginPasswordDto, ResponceDto, StructDto, message, message_chat, chat, user, user_login,
  user_login_password, responce, PacketDto,
}
use chat_bot.Wire.ClassType

-- `buffer.push_back((n >> 24) & 0xFF)` and so on, four bytes of a 32-bit word.
unfoldable pub word_bytes : ℕ → Bytes
word_bytes n = n / 2 ^ 24 % 256 ∷ n / 2 ^ 16 % 256 ∷ n / 2 ^ 8 % 256 ∷ n % 256 ∷ []

-- Eight bytes of a 64-bit word, the upper half first.
unfoldable pub long_bytes : ℕ → Bytes
long_bytes n = word_bytes (n / 2 ^ 32) ++ word_bytes (n % 2 ^ 32)

unfoldable pub bool_byte : Bool → ℕ
bool_byte true = 1
bool_byte false = 0

-- The bytes of each element, one after the other.
unfoldable pub each {ℓ} : {A : Type ℓ} → (A → Bytes) → List A → Bytes
each f [] = []
each f (a ∷ as') = f a ++ each f as'

module _ (host : Host) where
  -- htonl(static_cast<std::uint32_t>(n)), written out.
  unfoldable pub write_u32 : ℕ → Bytes
  write_u32 n = word_bytes (host.htonl (n % 2 ^ 32))

  unfoldable pub write_u64 : ℕ → Bytes
  write_u64 n = long_bytes (to_big_endian64 host n)

  unfoldable pub write_string : Bytes → Bytes
  write_string s = write_u32 (length s) ++ s

  unfoldable pub write_responce : ResponceDto → Bytes
  write_responce r =
      (bool_byte r.req_result ∷ []) ++ (write_u64 r.any_number ++ write_string r.any_string)

  unfoldable pub write_user_login : UserLoginDto → Bytes
  write_user_login u = write_string u.login

  unfoldable pub write_user_login_password : UserLoginPasswordDto → Bytes
  write_user_login_password u = write_string u.login ++ write_string u.passwordhash

  unfoldable pub write_user : UserDto → Bytes
  write_user u =
      write_string u.login
      ++ (write_string u.passwordhash
          ++ (write_string u.user_name
              ++ (write_string u.email
                  ++ (write_string u.phone
                      ++ (write_string u.disable_reason
                          ++ ((bool_byte u.is_active ∷ [])
                              ++ (write_u64 u.disabled_at ++ write_u64 u.ban_until)))))))

  unfoldable pub write_participant : ParticipantsDto → Bytes
  write_participant p =
      write_string p.login
      ++ (write_u32 p.last_read_message
          ++ (write_u32 (length p.deleted_message_ids)
              ++ (each write_u64 p.deleted_message_ids ++ (bool_byte p.deleted_from_chat ∷ []))))

  unfoldable pub write_chat : ChatDto → Bytes
  write_chat c =
      write_u64 c.chat_id
      ++ (write_string c.sender_login
          ++ (write_u32 (length c.participants) ++ each write_participant c.participants))

  unfoldable pub write_content : MessageContentDto → Bytes
  write_content c = (c.message_content_type % 256 ∷ []) ++ write_string c.payload

  -- A message inside messageChatDTO: `msg.chatId` is not written.
  unfoldable pub write_chat_message : MessageDto → Bytes
  write_chat_message m =
      write_string m.sender_login
      ++ (write_u64 m.message_id
          ++ (write_u64 (to_u64 m.time_stamp)
              ++ (write_u32 (length m.message_content) ++ each write_content m.message_content)))

  unfoldable pub write_message_chat : MessageChatDto → Bytes
  write_message_chat c =
      write_u64 c.chat_id ++ (write_u32 (length c.messages) ++ each write_chat_message c.messages)

  unfoldable pub write_message : MessageDto → Bytes
  write_message m =
      write_u64 m.chat_id
      ++ (write_string m.sender_login
          ++ (write_u64 m.message_id
              ++ (write_u64 (to_u64 m.time_stamp)
                  ++ (write_u32 (length m.message_content)
                      ++ each write_content m.message_content))))

  unfoldable pub write_struct : StructDto → Bytes
  write_struct (responce r) = write_responce r
  write_struct (user_login u) = write_user_login u
  write_struct (user_login_password u) = write_user_login_password u
  write_struct (user u) = write_user u
  write_struct (chat c) = write_chat c
  write_struct (message_chat c) = write_message_chat c
  write_struct (message m) = write_message m

-- The class of the object behind structDTOPtr.
abbrev pub class_of : StructDto → ℕ
class_of (responce r) = ClassType.responce
class_of (user_login u) = ClassType.user_login
class_of (user_login_password u) = ClassType.user_login_password
class_of (user u) = ClassType.user
class_of (chat c) = ClassType.chat
class_of (message_chat c) = ClassType.message_chat
class_of (message m) = ClassType.message

module _ (host : Host) where
  -- The switch. A class outside the enumeration throws; the pointer's null check is missing for
  -- responceDTO alone; a pointer to an object of another class has no defined behaviour.
  unfoldable pub write_body : ℕ → Option StructDto → Outcome Bytes
  write_body class_type none =
      if class_type == ClassType.responce then fault else throw internal_data_error
  write_body class_type (some dto) =
      if class_type == class_of dto
      then ok (write_struct host dto)
      else if leb class_type ClassType.responce
      then fault
      else throw internal_data_error

  unfoldable pub write_header : PacketDto → Bytes
  write_header p =
      write_u32 host p.request_type
      ++ (write_u32 host p.struct_dto_class_type ++ write_u32 host p.req_direction)

  -- The catch clauses print; the header is in the buffer by then.
  unfoldable pub serialize_to_binary : PacketDto → Outcome Bytes
  serialize_to_binary p = elim (write_body p.struct_dto_class_type p.struct_dto_ptr) [
    | ok body ↦ ok (write_header p ++ body)
    | throw e ↦ ok (write_header p)
    | fault ↦ fault
  ]

  -- One round of the loop: the size of a packet, the packet, and the later rounds.
  abbrev pub append_frame : Outcome Bytes → Outcome Bytes → Outcome Bytes
  append_frame (ok bytes) (ok more) = ok (write_u32 host (length bytes) ++ (bytes ++ more))
  append_frame (ok bytes) (throw e) = throw e
  append_frame (ok bytes) fault = fault
  append_frame (throw e) later = throw e
  append_frame fault later = fault

  unfoldable pub write_packets : List PacketDto → Outcome Bytes
  write_packets [] = ok []
  write_packets (p ∷ ps) = append_frame (serialize_to_binary p) (write_packets ps)

  unfoldable pub serialize_packet_list : List PacketDto → Outcome Bytes
  serialize_packet_list ps = elim (write_packets ps) [
    | ok more ↦ ok (write_u32 host (length ps) ++ more)
    | throw e ↦ throw e
    | fault ↦ fault
  ]
