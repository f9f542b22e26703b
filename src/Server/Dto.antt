-- ===== src/Server/Dto.antt =====
-- The structures of Shark_2_0_CLI/src/dto/dto_struct.h that differ from those of the Qt version:
-- UserDTO has fewer fields. The casts of a packet's structure are here too.
use chat_bot.Base.{ℕ, Option, some}
use chat_bot.Wire.Reader.{Bytes, Outcome, ok, fault}
use chat_bot.Wire.Dto.{
  MessageDto, MessageChatDto, ChatDto, UserLoginDto, UserLoginPasswordDto, ResponceDto,
}

pub record UserDto : Type 0 where
  pub login : Bytes
  pub passwordhash : Bytes
  pub user_name : Bytes
  pub email : Bytes
  pub phone : Bytes

pub data StructDto : Type 0 where
  message : MessageDto → StructDto
  message_chat : MessageChatDto → StructDto
  chat : ChatDto → StructDto
  user : UserDto → StructDto
  user_login : UserLoginDto → StructDto
  user_login_password : UserLoginPasswordDto → StructDto
  responce : ResponceDto → StructDto

pub record PacketDto : Type 0 where
  pub request_type : ℕ
  pub struct_dto_class_type : ℕ
  pub req_direction : ℕ
  pub struct_dto_ptr : Option StructDto

-- static_cast<const StructDTOClass<T> &>(*structDTOPtr), for each T that the server casts to: a null
-- pointer or a structure of another class is undefined.
unfoldable pub as_user_login : Option StructDto → Outcome UserLoginDto
as_user_login (some (user_login dto)) = ok dto
as_user_login _ = fault

unfoldable pub as_user_login_password : Option StructDto → Outcome UserLoginPasswordDto
as_user_login_password (some (user_login_password dto)) = ok dto
as_user_login_password _ = fault

unfoldable pub as_user : Option StructDto → Outcome UserDto
as_user (some (user dto)) = ok dto
as_user _ = fault

unfoldable pub as_message : Option StructDto → Outcome MessageDto
as_message (some (message dto)) = ok dto
as_message _ = fault

unfoldable pub as_chat : Option StructDto → Outcome ChatDto
as_chat (some (chat dto)) = ok dto
as_chat _ = fault

unfoldable pub as_message_chat : Option StructDto → Outcome MessageChatDto
as_message_chat (some (message_chat dto)) = ok dto
as_message_chat _ = fault
