-- ===== src/Server/Directory.antt =====
-- The users of Shark_2_0_CLI/src/server/server_session.cpp as a directory: what the server promises
-- about them, whatever the requests.
use mathlib.Core.Option
use chat_bot.Base.{
  ◌≡◌, refl, sym, ap, ◌∙◌, inl, inr, Bool, true, false, none, some, Option, Bool-cases,
  Option-cases, if◌then◌else◌,
}
use chat_bot.Base.Maps.{find, find-insert_fresh, insert_old}
use chat_bot.Wire.Reader.{Bytes}
use chat_bot.Text.Utf8.{same_text}
use chat_bot.Chat.Parts.{bytes_key}
use chat_bot.System.{Account, find_user_by_login, add_user_to_system}
use chat_bot.Server.{Server}
use chat_bot.Server.Dto.{UserDto}
use chat_bot.Server.Fill.{user_dto}
use chat_bot.Server.Create.{new_account, create_user_srv}

-- For each login what is known of its user, with the password.
abbrev pub Directory : Type 0
Directory = Bytes → Option UserDto

-- What stands under a login behind a user more: by what stood under the user's login, and whether
-- the logins are the same.
abbrev pub enrolled : Option UserDto → Bool → UserDto → Option UserDto → Option UserDto
enrolled (some taken) same dto old = old
enrolled none true dto old = some dto
enrolled none false dto old = old

-- A user more, unless the login is taken.
abbrev pub enrol : UserDto → Directory → Directory
enrol dto directory login =
    enrolled (directory dto.login) (same_text dto.login login) dto (directory login)

-- The directory of a server.
unfoldable pub directory : Server → Directory
directory s login = Option.map (λ a. user_dto a true) (find_user_by_login login s.system)

-- createUserSrv adds the user to the directory of the server where the login is free, and changes
-- nothing of it where the login is taken.
pub create_user_srv-directory :
    (dto : UserDto) (s : Server) (login : Bytes)
    → directory (create_user_srv dto s) login ≡ enrol dto (directory s) login
unfolding directory create_user_srv add_user_to_system find_user_by_login new_account user_dto
create_user_srv-directory dto s login =
    let account = new_account s.next_address dto in
    let logins = s.system.login_user_map in
    let seen : Option Account → Option UserDto = Option.map (λ a. user_dto a true) in
    elim (Option-cases (find dto.login logins)) [
      | inl fresh ↦
          let at = find-insert_fresh dto.login login account logins fresh in
          elim (Bool-cases (same_text dto.login login)) [
            | inl same ↦
                ap seen (at ∙ ap (λ b. if b then some account else find login logins) same)
                ∙ sym (enrol-eq none true fresh same)
            | inr differ ↦
                ap seen (at ∙ ap (λ b. if b then some account else find login logins) differ)
                ∙ sym (enrol-eq none false fresh differ)
          ]
      | inr (old, taken) ↦
          ap (λ l. seen (find login l)) (insert_old dto.login account old logins taken)
          ∙ sym (enrol-eq (some old) (same_text dto.login login) taken refl)
    ]
  where
    enrol-eq :
        (o : Option Account) (b : Bool)
        → find dto.login s.system.login_user_map ≡ o
        → same_text dto.login login ≡ b
        → enrol dto (directory s) login
          ≡ enrolled (Option.map (λ a. user_dto a true) o) b dto (directory s login)
    enrol-eq o b there same =
        ap
          (λ x.
            enrolled (Option.map (λ a. user_dto a true) x) (same_text dto.login login) dto
              (directory s login))
          there
        ∙ ap (λ x. enrolled (Option.map (λ a. user_dto a true) o) x dto (directory s login)) same
