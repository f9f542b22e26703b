-- ===== src/Server/Checks.antt =====
-- The functions of Shark_2_0_CLI/src/server/server_session.cpp that look for users on behalf of other
-- code of the server.
use chat_bot.Base.{Bool, true, false, none, some, List, [], ◌∷◌}
use chat_bot.Wire.Dto.{UserLoginDto, UserLoginPasswordDto}
use chat_bot.Wire.Reader.{Bytes, Outcome, ok}
use chat_bot.System.{find_user_by_login, find_user_by_text_part, check_password_valid_for_user}
use chat_bot.Server.{Server, ◌>>=◌}
use chat_bot.Server.Dto.{UserDto}
use chat_bot.Server.Fill.{fill_for_send_user_dto}
use chat_bot.Server.Registry.{logins_of}

unfoldable pub check_user_login_srv : UserLoginDto → Server → Bool
check_user_login_srv dto s = elim (find_user_by_login dto.login s.system) [
  | none ↦ false
  | some account ↦ true
]

unfoldable pub check_user_password_srv : UserLoginPasswordDto → Server → Bool
check_user_password_srv dto s = check_password_valid_for_user dto.passwordhash dto.login s.system

-- The loop over the users found, who are sent with their passwords.
unfoldable pub user_dtos : List Bytes → Server → Outcome (List UserDto)
user_dtos [] s = ok []
user_dtos (login ∷ logins) s =
    fill_for_send_user_dto login true s >>= λ dto. user_dtos logins s >>= λ dtos. ok (dto ∷ dtos)

unfoldable pub find_user_by_text_part_from_srv : Bytes → Server → Outcome (List UserDto)
find_user_by_text_part_from_srv text_to_find s =
    user_dtos (logins_of (find_user_by_text_part text_to_find s.system)) s
