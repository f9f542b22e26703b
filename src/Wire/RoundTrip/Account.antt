-- ===== src/Wire/RoundTrip/Account.antt =====
-- The account classes read back: responceDTO, userLoginDTO, userLoginPasswordDTO, userDTO.
use chat_bot.Base.{ℕ, ◌^◌, ◌<◌, arith, length}
use chat_bot.Wire.Host.{Host}
use chat_bot.Wire.Dto.{Text, UserDto, UserLoginDto, UserLoginPasswordDto, ResponceDto}
use chat_bot.Wire.Decode.Account.{
  read_responce, read_user_login, read_user_login_password, read_user,
}
use chat_bot.Wire.Encode.{
  write_u64, write_string, write_responce, write_user_login, write_user_login_password, write_user,
}
use chat_bot.Wire.RoundTrip.Rules.{Reads, Reads-bind, Reads-last, Reads-need}
use chat_bot.Wire.RoundTrip.Numbers.{
  write_u64_leads, length-write_u64, Reads-bool, Reads-u64, Reads-string,
}

-- What fits its field on the wire: a length in 32 bits, a std::size_t in 64.
abbrev pub FitsText : Text → Type 0
FitsText s = length s < 2 ^ 32

abbrev pub IsU64 : ℕ → Type 0
IsU64 n = n < 2 ^ 64

pub record FitsResponce (r : ResponceDto) : Type 0 where
  pub number : IsU64 r.any_number
  pub text : FitsText r.any_string

pub record FitsUser (u : UserDto) : Type 0 where
  pub login : FitsText u.login
  pub passwordhash : FitsText u.passwordhash
  pub user_name : FitsText u.user_name
  pub email : FitsText u.email
  pub phone : FitsText u.phone
  pub disable_reason : FitsText u.disable_reason
  pub disabled_at : IsU64 u.disabled_at
  pub ban_until : IsU64 u.ban_until

module _ (host : Host) where
  pub Reads-responce :
      (r : ResponceDto) → FitsResponce r → Reads (read_responce host) (write_responce host r) r
  unfolding read_responce write_responce
  Reads-responce r fits =
      Reads-need 4
        (omega (arith, write_u64_leads host r.any_number (write_string host r.any_string)))
        (Reads-bind _ (Reads-bool r.req_result) (
          Reads-need 8 (write_u64_leads host r.any_number (write_string host r.any_string)) (
            Reads-bind _ (Reads-u64 host r.any_number fits.number)
              (Reads-last _ (Reads-string host r.any_string fits.text)))))

  pub Reads-user_login :
      (u : UserLoginDto)
      → FitsText u.login
      → Reads (read_user_login host) (write_user_login host u) u
  unfolding read_user_login write_user_login
  Reads-user_login u h = Reads-last _ (Reads-string host u.login h)

  pub Reads-user_login_password :
      (u : UserLoginPasswordDto)
      → FitsText u.login
      → FitsText u.passwordhash
      → Reads (read_user_login_password host) (write_user_login_password host u) u
  unfolding read_user_login_password write_user_login_password
  Reads-user_login_password u h k =
      Reads-bind _ (Reads-string host u.login h) (Reads-last _ (Reads-string host u.passwordhash k))

  pub Reads-user : (u : UserDto) → FitsUser u → Reads (read_user host) (write_user host u) u
  unfolding read_user write_user
  Reads-user u fits = Reads-bind _ (Reads-string host u.login fits.login) (
      Reads-bind _ (Reads-string host u.passwordhash fits.passwordhash) (
        Reads-bind _ (Reads-string host u.user_name fits.user_name) (
          Reads-bind _ (Reads-string host u.email fits.email) (
            Reads-bind _ (Reads-string host u.phone fits.phone) (
              Reads-bind _ (Reads-string host u.disable_reason fits.disable_reason) (
                Reads-need 1 (omega arith) (
                  Reads-bind _ (Reads-bool u.is_active) (
                    Reads-need 8 (write_u64_leads host u.disabled_at (write_u64 host u.ban_until)) (
                      Reads-bind _ (Reads-u64 host u.disabled_at fits.disabled_at) (
                        Reads-need 8 (omega (arith, length-write_u64 host u.ban_until))
                          (Reads-last _ (Reads-u64 host u.ban_until fits.ban_until))))))))))))
