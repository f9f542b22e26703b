-- ===== src/Wire/Decode.antt =====
-- deSerializeFromBinary and deSerializePacketList of core/system/serialize.cpp.
pub mod Account
pub mod Conversation
use chat_bot.Base.{
  ℕ, zero, suc, Option, none, some, List, [], ◌∷◌, ltb, ◌==◌, if◌then◌else◌, length,
}
use chat_bot.Wire.Host.{Host}
use chat_bot.Wire.Reader.{
  wrong_packet_size, unsupported_deserialize_type, Outcome, ok, throw, fault, Bytes, Reader, pure,
  fail, call, ◌>>=◌, ◌>>◌, need, next_range, read_u32, read_times,
}
use chat_bot.Wire.Dto.{
  StructDto, message, message_chat, chat, user, user_login, user_login_password, responce,
  PacketDto,
}
use chat_bot.Wire.ClassType
use Account.{read_responce, read_user_login, read_user_login_password, read_user}
use Conversation.{read_chat, read_message, read_message_chat}

unfoldable pub wrap : {A : Type 0} → Reader A → (A → StructDto) → Reader StructDto
wrap m f = do a ← m; pure (f a)

-- The catch clauses print, and leave structDTOPtr null.
abbrev pub caught : Outcome (StructDto × Bytes) → Outcome (Option StructDto)
caught (ok (dto, rest)) = ok (some dto)
caught (throw e) = ok none
caught fault = fault

-- What the catch clauses of the list do: they clear it.
abbrev pub cleared : Outcome (List PacketDto × Bytes) → Outcome (List PacketDto)
cleared (ok (packets, rest)) = ok packets
cleared (throw e) = ok []
cleared fault = fault

module _ (host : Host) where
  -- The three words of the header, which stand before the try block.
  unfoldable pub read_header : Reader (ℕ × ℕ × ℕ)
  read_header = do
    request ← read_u32 host
    class_type ← read_u32 host
    direction ← read_u32 host
    pure (request, class_type, direction)

module _ (host : Host) (unset : ℕ) where
  -- The switch over structDTOClassType.
  unfoldable pub read_struct : ℕ → Reader StructDto
  read_struct class_type =
      if class_type == ClassType.responce
      then wrap (read_responce host) responce
      else if class_type == ClassType.user_login
      then wrap (read_user_login host) user_login
      else if class_type == ClassType.user_login_password
      then wrap (read_user_login_password host) user_login_password
      else if class_type == ClassType.user
      then wrap (read_user host) user
      else if class_type == ClassType.chat
      then wrap (read_chat host) chat
      else if class_type == ClassType.message_chat
      then wrap (read_message_chat host unset) message_chat
      else if class_type == ClassType.message
      then wrap (read_message host) message
      else fail unsupported_deserialize_type

  unfoldable pub after_header : Outcome ((ℕ × ℕ × ℕ) × Bytes) → Outcome PacketDto
  after_header (ok ((request, class_type, direction), rest)) =
      elim (caught (read_struct class_type rest)) [
        | ok ptr ↦ ok (record {
          request_type = request;
          struct_dto_class_type = class_type;
          req_direction = direction;
          struct_dto_ptr = ptr;
        })
        | throw e ↦ throw e
        | fault ↦ fault
      ]
  after_header (throw e) = throw e
  after_header fault = fault

  unfoldable pub deserialize_from_binary : Bytes → Outcome PacketDto
  deserialize_from_binary buffer =
      if ltb (length buffer) 13
      then throw wrong_packet_size
      else after_header (read_header host buffer)

  -- A call of deSerializeFromBinary on a buffer of its own.
  unfoldable pub read_packet : Reader PacketDto
  read_packet = do
    need 4
    size ← read_u32 host
    need size
    packet ← next_range size
    call (deserialize_from_binary packet)

  unfoldable pub after_count : Outcome (ℕ × Bytes) → Outcome (List PacketDto)
  after_count (ok (count, rest)) = cleared (read_times count read_packet rest)
  after_count (throw e) = throw e
  after_count fault = fault

  unfoldable pub deserialize_packet_list : Bytes → Outcome (List PacketDto)
  deserialize_packet_list buffer =
      if ltb (length buffer) 4 then throw wrong_packet_size else after_count (read_u32 host buffer)
