-- ===== src/Wire/Dto.antt =====
-- The structures of dto/dto_struct.h. Enumerations are kept as the 32-bit numbers that a cast
-- yields, since a cast from the wire checks no range; a string is the list of its bytes.
use chat_bot.Base.{ℕ, Bool, List, Option}
use chat_bot.Base.Int.{ℤ}

abbrev pub Text : Type 0
Text = List ℕ

pub record MessageContentDto : Type 0 where
  pub message_content_type : ℕ
  pub payload : Text

pub record MessageDto : Type 0 where
  pub chat_id : ℕ
  pub message_id : ℕ
  pub sender_login : Text
  pub message_content : List MessageContentDto
  pub time_stamp : ℤ

pub record MessageChatDto : Type 0 where
  pub chat_id : ℕ
  pub messages : List MessageDto

pub record ParticipantsDto : Type 0 where
  pub login : Text
  pub last_read_message : ℕ
  pub deleted_message_ids : List ℕ
  pub deleted_from_chat : Bool

pub record ChatDto : Type 0 where
  pub chat_id : ℕ
  pub sender_login : Text
  pub participants : List ParticipantsDto

pub record UserDto : Type 0 where
  pub login : Text
  pub passwordhash : Text
  pub user_name : Text
  pub email : Text
  pub phone : Text
  pub disable_reason : Text
  pub is_active : Bool
  pub disabled_at : ℕ
  pub ban_until : ℕ

pub record UserLoginDto : Type 0 where
  pub login : Text

pub record UserLoginPasswordDto : Type 0 where
  pub login : Text
  pub passwordhash : Text

pub record ResponceDto : Type 0 where
  pub req_result : Bool
  pub any_number : ℕ
  pub any_string : Text

-- StructDTOClass<T> behind an IStructDTO pointer: a constructor for each T.
pub data StructDto : Type 0 where
  message : MessageDto → StructDto
  message_chat : MessageChatDto → StructDto
  chat : ChatDto → StructDto
  user : UserDto → StructDto
  user_login : UserLoginDto → StructDto
  user_login_password : UserLoginPasswordDto → StructDto
  responce : ResponceDto → StructDto

-- A null structDTOPtr is `none`.
pub record PacketDto : Type 0 where
  pub request_type : ℕ
  pub struct_dto_class_type : ℕ
  pub req_direction : ℕ
  pub struct_dto_ptr : Option StructDto
