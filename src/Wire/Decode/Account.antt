-- ===== src/Wire/Decode/Account.antt =====
-- The cases responceDTO, userLoginDTO, userLoginPasswordDTO and userDTO of deSerializeFromBinary,
-- which check the size of the buffer before they read.
use chat_bot.Wire.Host.{Host}
use chat_bot.Wire.Reader.{Reader, pure, ◌>>=◌, ◌>>◌, need, next_bool, read_u64, read_string}
use chat_bot.Wire.Dto.{UserDto, UserLoginDto, UserLoginPasswordDto, ResponceDto}

module _ (host : Host) where
  unfoldable pub read_responce : Reader ResponceDto
  read_responce = do
    need 4
    result ← next_bool
    need 8
    number ← read_u64 host
    text ← read_string host
    pure (record { req_result = result; any_number = number; any_string = text })

  unfoldable pub read_user_login : Reader UserLoginDto
  read_user_login = do login ← read_string host; pure (record { login = login })

  unfoldable pub read_user_login_password : Reader UserLoginPasswordDto
  read_user_login_password = do
    login ← read_string host
    hash ← read_string host
    pure (record { login = login; passwordhash = hash })

  unfoldable pub read_user : Reader UserDto
  read_user = do
    login ← read_string host
    hash ← read_string host
    name ← read_string host
    email ← read_string host
    phone ← read_string host
    reason ← read_string host
    need 1
    active ← next_bool
    need 8
    disabled ← read_u64 host
    need 8
    banned ← read_u64 host
    pure (record {
      login = login;
      passwordhash = hash;
      user_name = name;
      email = email;
      phone = phone;
      disable_reason = reason;
      is_active = active;
      disabled_at = disabled;
      ban_until = banned;
    })
