-- ===== src/Wire/Safety/Account.antt =====
-- The account classes are read within the bounds of every buffer.
use chat_bot.Wire.Host.{Host}
use chat_bot.Wire.Decode.Account.{
  read_responce, read_user_login, read_user_login_password, read_user,
}
use chat_bot.Wire.Safety.Rules.{
  Safe, Safe-bind, Safe-take, Safe-pure, Safe-need, Safe-string, Takes-bool, Takes-u64,
}

module _ (host : Host) where
  pub Safe-responce : Safe 0 (read_responce host)
  unfolding read_responce
  Safe-responce = Safe-need 4 0 (
      Safe-take 1 3 _ Takes-bool λ result. Safe-need 8 3 (
        Safe-take 8 0 _ (Takes-u64 host)
          λ number. Safe-bind 0 _ (Safe-string host) λ text. Safe-pure _))

  pub Safe-user_login : Safe 0 (read_user_login host)
  unfolding read_user_login
  Safe-user_login = Safe-bind 0 _ (Safe-string host) λ login. Safe-pure _

  pub Safe-user_login_password : Safe 0 (read_user_login_password host)
  unfolding read_user_login_password
  Safe-user_login_password =
      Safe-bind 0 _ (Safe-string host) λ login. Safe-bind 0 _ (Safe-string host) λ hash. Safe-pure _

  pub Safe-user : Safe 0 (read_user host)
  unfolding read_user
  Safe-user = Safe-bind 0 _ (Safe-string host) λ login. Safe-bind 0 _ (Safe-string host) λ hash.
      Safe-bind 0 _ (Safe-string host) λ name. Safe-bind 0 _ (Safe-string host) λ email.
        Safe-bind 0 _ (Safe-string host) λ phone. Safe-bind 0 _ (Safe-string host) λ reason.
          Safe-need 1 0 (
            Safe-take 1 0 _ Takes-bool λ active. Safe-need 8 0 (
              Safe-take 8 0 _ (Takes-u64 host)
                λ disabled. Safe-need 8 0 (Safe-take 8 0 _ (Takes-u64 host) λ banned. Safe-pure _)))
