-- ===== src/Wire/ClassType.antt =====
-- The values of the enumeration StructDTOClassType of dto/dto_struct.h.
use chat_bot.Base.{ℕ}

abbrev pub message : ℕ
message = 0

abbrev pub message_chat : ℕ
message_chat = 1

abbrev pub chat : ℕ
chat = 2

abbrev pub user : ℕ
user = 3

abbrev pub user_login : ℕ
user_login = 4

abbrev pub user_login_password : ℕ
user_login_password = 5

abbrev pub responce : ℕ
responce = 6
