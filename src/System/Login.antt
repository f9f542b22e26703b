-- ===== src/System/Login.antt =====
-- Users by login: addUserToSystem, findUserByLogin and checkPasswordValidForUser of
-- Shark_2_0_CLI/src/core/chat_system/chat_system.cpp.
use chat_bot.Base.{◌≡◌, refl, ap, ◌∙◌, none, some, if◌then◌else◌}
use chat_bot.Base.Maps.{find, insert_old, find-insert_fresh}
use chat_bot.Wire.Reader.{Bytes}
use chat_bot.Text.Utf8.{same_text}
use chat_bot.Chat.Parts.{bytes_key, same_text_iff}
use chat_bot.System.{
  Account, ChatSystem, add_user_to_system, find_user_by_login, check_password_valid_for_user,
}

check_password-some :
    (hash login : Bytes) (s : ChatSystem) (user : Account)
    → find_user_by_login login s ≡ some user
    → check_password_valid_for_user hash login s ≡ same_text hash user.password_hash
unfolding check_password_valid_for_user
check_password-some hash login s user h = rw (h, check_password_valid_for_user)

-- After addUserToSystem a login that was taken still belongs to the user it belonged to, with the
-- password of that user.
pub add_user_to_system-taken :
    (user old : Account) (s : ChatSystem) (hash : Bytes)
    → find_user_by_login user.login s ≡ some old
    → (find_user_by_login user.login (add_user_to_system user s) ≡ some old)
      × (check_password_valid_for_user hash user.login (add_user_to_system user s)
          ≡ same_text hash old.password_hash)
unfolding find_user_by_login add_user_to_system
add_user_to_system-taken user old s hash taken =
    let after = add_user_to_system user s in
    let kept : find user.login after.login_user_map ≡ some old =
      ap (find user.login) (insert_old user.login user old s.login_user_map taken) ∙ taken in
    (kept, check_password-some hash user.login after old kept)

-- After addUserToSystem a login that was free belongs to the new user, with the new password, and
-- every other login to whom it belonged.
pub add_user_to_system-free :
    (user : Account) (s : ChatSystem) (hash login : Bytes)
    → find_user_by_login user.login s ≡ none
    → (find_user_by_login login (add_user_to_system user s)
        ≡ (if same_text user.login login then some user else find_user_by_login login s))
      × (check_password_valid_for_user hash user.login (add_user_to_system user s)
          ≡ same_text hash user.password_hash)
unfolding find_user_by_login add_user_to_system
add_user_to_system-free user s hash login free =
    let after = add_user_to_system user s in
    let new : find user.login after.login_user_map ≡ some user =
      find-insert_fresh user.login user.login user s.login_user_map free
      ∙ rw ((same_text_iff user.login user.login).1 refl) in
    (
      find-insert_fresh user.login login user s.login_user_map free,
      check_password-some hash user.login after user new,
    )
