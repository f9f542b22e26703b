-- ===== src/System.antt =====
-- All users and chats: Shark_2_0_CLI/src/core/chat_system/chat_system.cpp with the chat lists of
-- Shark_2_0_CLI/src/core/user/user_chat_list.cpp. What the code prints on std::cout is left out.
pub mod Lists
pub mod Rollback
pub mod Restore
pub mod Instance
pub mod Create
pub mod Login
pub mod Search
mod Tests
use chat_bot.Base.{
  ℕ, zero, suc, ◌+◌, ◌%◌, ◌-◌, ◌^◌, Bool, true, false, ◌||◌, Option, none, some, List, [], ◌∷◌,
  ◌++◌, ltb, ◌==◌, if◌then◌else◌,
}
use chat_bot.Base.Maps.{find, insert, assign}
use chat_bot.Wire.Reader.{Bytes}
use chat_bot.Text.Utf8.{same_text, text_to_lower}
use chat_bot.Chat.{Chat}
use chat_bot.Chat.Parts.{Participant, bytes_key, nat_key, insert_id}
use Lists.{add_to_list, delete_from_list, remove_id, max_key, contains}

-- An object of class User: its address and its data. Whether it has a chat list is in the system's
-- `chat_lists`.
pub record Account : Type 0 where
  pub address : ℕ
  pub login : Bytes
  pub user_name : Bytes
  pub password_hash : Bytes
  pub email : Bytes
  pub phone : Bytes

-- Chats are known by their addresses. `chat_lists` holds the list of each user by the address of
-- the user, and nothing for a user whose pointer to a list is null.
pub record ChatSystem : Type 0 where
  pub users : List Account
  pub chats : List ℕ
  pub active_user : Option ℕ
  pub login_user_map : List (Bytes × Account)
  pub chat_id_chat_map : List (ℕ × ℕ)
  pub next_chat_id_client : ℕ
  pub is_server_status : Bool
  pub free_chat_server_id_set : List ℕ
  pub chat_lists : List (ℕ × List ℕ)

unfoldable pub get_chat_by_id : ℕ → ChatSystem → Option ℕ
get_chat_by_id chat_id s = find chat_id s.chat_id_chat_map

unfoldable pub set_is_server_status : Bool → ChatSystem → ChatSystem
set_is_server_status server_status s = record s { is_server_status = server_status }

unfoldable pub set_next_chat_id_client : ℕ → ChatSystem → ChatSystem
set_next_chat_id_client next_chat_id s = record s { next_chat_id_client = next_chat_id }

unfoldable pub set_free_chat_server_id : ℕ → ChatSystem → ChatSystem
set_free_chat_server_id free_chat_id s = record s {
  free_chat_server_id_set = insert_id free_chat_id s.free_chat_server_id_set;
}

unfoldable pub move_to_free_chat_id_srv : ℕ → ChatSystem → ChatSystem
move_to_free_chat_id_srv chat_id s =
    if s.is_server_status
    then record s { free_chat_server_id_set = insert_id chat_id s.free_chat_server_id_set }
    else s

unfoldable pub release_free_chat_id_srv : ℕ → ChatSystem → ChatSystem
release_free_chat_id_srv chat_id s =
    if s.is_server_status
    then record s { free_chat_server_id_set = remove_id chat_id s.free_chat_server_id_set }
    else s

unfoldable pub set_active_user : Option ℕ → ChatSystem → ChatSystem
set_active_user user s = record s { active_user = user }

unfoldable pub add_user_to_system : Account → ChatSystem → ChatSystem
add_user_to_system user s = record s {
  users = s.users ++ user ∷ [];
  login_user_map = insert user.login user s.login_user_map;
}

-- The loop over the participants: whether it ended without an exception, the lists, and the users
-- whose lists were used.
unfoldable pub add_to_participants :
    ℕ → List Participant → List (ℕ × List ℕ) → List ℕ → Bool × List (ℕ × List ℕ) × List ℕ
add_to_participants chat [] lists added = (true, lists, added)
add_to_participants chat (p ∷ ps) lists added = elim (p.user) [
  | none ↦ (false, lists, added)
  | some user ↦ elim (find user lists) [
    | none ↦ (false, lists, added)
    | some chat_list ↦
        add_to_participants chat ps (assign user (add_to_list chat chat_list) lists)
          (added ++ user ∷ [])
  ]
]

-- The loop that rolls back. The lists in question are there, since they were used before.
unfoldable pub roll_back : ℕ → List ℕ → List (ℕ × List ℕ) → List (ℕ × List ℕ)
roll_back chat [] lists = lists
roll_back chat (user ∷ added) lists = elim (find user lists) [
  | none ↦ roll_back chat added lists
  | some chat_list ↦ roll_back chat added (assign user (delete_from_list chat chat_list) lists)
]

-- What addChatToInstance does: it throws ChatNotFoundException, it dereferences a null pointer, or
-- it returns a result and the system behind the call.
pub data Added : Type 0 where
  chat_not_found null_pointer : Added
  returned : Bool → ChatSystem → Added

-- `_chats` and `_chatIdChatMap` behind a success.
unfoldable pub register_chat : ℕ → Chat → ChatSystem → ChatSystem
register_chat address chat s = record s {
  chats = s.chats ++ address ∷ [];
  chat_id_chat_map = insert chat.chat_id address s.chat_id_chat_map;
}

unfoldable pub add_on_server : ℕ → Chat → ChatSystem → Added
add_on_server address chat s =
    let outcome = add_to_participants address chat.participants s.chat_lists [] in
    if outcome.0
    then returned true (register_chat address chat (record s { chat_lists = outcome.1 }))
    else returned false (record s { chat_lists = roll_back address outcome.2 outcome.1 })

unfoldable pub add_on_client : ℕ → Chat → ChatSystem → Added
add_on_client address chat s = elim (s.active_user) [
  | none ↦ null_pointer
  | some user ↦ elim (find user s.chat_lists) [
    | none ↦ null_pointer
    | some chat_list ↦ returned true (
        register_chat address chat
          (record s { chat_lists = assign user (add_to_list address chat_list) s.chat_lists }))
  ]
]

-- The chat by its address and its state, or a null pointer.
unfoldable pub add_chat_to_instance : Option (ℕ × Chat) → ChatSystem → Added
add_chat_to_instance none s = chat_not_found
add_chat_to_instance (some (address, chat)) s =
    if s.is_server_status then add_on_server address chat s else add_on_client address chat s

-- The client's loop, with fuel; `none` means that the fuel ran out. `++nextChatId` is one of
-- std::size_t.
unfoldable pub next_free_id : ℕ → ℕ → List (ℕ × ℕ) → Option ℕ
next_free_id zero id ids = none
next_free_id (suc fuel) id ids = elim (find id ids) [
  | none ↦ some id
  | some _ ↦ next_free_id fuel ((id + 1) % 2 ^ 64) ids
]

-- A std::size_t in an int, and that in a std::size_t again.
unfoldable pub through_int : ℕ → ℕ
through_int n = let low = n % 2 ^ 32 in if ltb low (2 ^ 31) then low else low + (2 ^ 64 - 2 ^ 32)

-- `result`, which is an int.
unfoldable pub next_server_id : List (ℕ × ℕ) → ℕ
next_server_id [] = 1
next_server_id (e ∷ es) = through_int ((max_key e.0 es + 1) % 2 ^ 64)

unfoldable pub create_on_server : ℕ → ChatSystem → ℕ × ChatSystem
create_on_server chat s = elim (s.free_chat_server_id_set) [
  | [] ↦
      let id = next_server_id s.chat_id_chat_map in
      (id, record s { chat_id_chat_map = insert id chat s.chat_id_chat_map })
  | value ∷ free ↦ (value, record s { free_chat_server_id_set = free })
]

-- No id above the largest of the map is taken, which bounds the rounds of the loop.
unfoldable pub create_on_client : ℕ → ChatSystem → Option (ℕ × ChatSystem)
create_on_client chat s =
    let ids = s.chat_id_chat_map in
    elim (next_free_id (max_key 0 ids + 2) s.next_chat_id_client ids) [
      | none ↦ none
      | some id ↦ some (
        id,
        record s { next_chat_id_client = (id + 1) % 2 ^ 64; chat_id_chat_map = insert id chat ids },
      )
    ]

-- The id and the system behind the call; `none` if the loop of the client does not end.
unfoldable pub create_new_chat_id : ℕ → ChatSystem → Option (ℕ × ChatSystem)
create_new_chat_id chat s =
    if s.is_server_status then some (create_on_server chat s) else create_on_client chat s

unfoldable pub is_active : Option ℕ → Account → Bool
is_active none user = false
is_active (some address) user = address == user.address

-- The loop over the users. A null active user equals no user.
unfoldable pub matching_users : Bytes → Option ℕ → List Account → List Account
matching_users text active [] = []
matching_users text active (user ∷ users) =
    let later = matching_users text active users in
    if is_active active user
    then later
    else if contains text (text_to_lower user.login) || contains text (text_to_lower user.user_name)
    then user ∷ later
    else later

unfoldable pub find_user_by_text_part : Bytes → ChatSystem → List Account
find_user_by_text_part text_to_find s =
    matching_users (text_to_lower text_to_find) s.active_user s.users

unfoldable pub find_user_by_login : Bytes → ChatSystem → Option Account
find_user_by_login user_login s = find user_login s.login_user_map

unfoldable pub check_password_valid_for_user : Bytes → Bytes → ChatSystem → Bool
check_password_valid_for_user password_hash user_login s = elim (find_user_by_login user_login s) [
  | none ↦ false
  | some user ↦ same_text password_hash user.password_hash
]
