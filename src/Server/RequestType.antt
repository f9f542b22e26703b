-- ===== src/Server/RequestType.antt =====
-- The values of the enumeration RequestType of Shark_2_0_CLI/src/dto/dto_struct.h that the server
-- of the in-memory version handles.
use chat_bot.Base.{ℕ}

abbrev pub check_login : ℕ
check_login = 1

abbrev pub check_log_password : ℕ
check_log_password = 2

abbrev pub register_user : ℕ
register_user = 3

abbrev pub find_user_by_part : ℕ
find_user_by_part = 4

abbrev pub find_user_by_login : ℕ
find_user_by_login = 5

abbrev pub create_user : ℕ
create_user = 6

abbrev pub create_chat : ℕ
create_chat = 7

abbrev pub create_message : ℕ
create_message = 8

abbrev pub get_users_data : ℕ
get_users_data = 9

abbrev pub set_last_read_message : ℕ
set_last_read_message = 10
