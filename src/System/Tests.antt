-- ===== src/System/Tests.antt =====
-- Tests of the system of users and chats, and the theorems at concrete systems.
use chat_bot.Base.{
  ℕ, ◌≡◌, ◌⊎◌, inl, refl, Bool, true, false, Option, none, some, [], ◌∷◌, ◌++◌, All, arith, ◌==◌,
  if◌then◌else◌,
}
use chat_bot.Base.Maps.{find, insert}
use chat_bot.Text.Utf8.{same_text, to_lower, text_to_lower}
use chat_bot.Chat.{Chat}
use chat_bot.Chat.Parts.{bytes_key, nat_key, has}
use chat_bot.System.{
  Account, ChatSystem, returned, add_chat_to_instance, create_new_chat_id, find_user_by_login,
  find_user_by_text_part, matching_users, is_active, create_on_server, next_server_id, through_int,
}
use chat_bot.System.Lists.{max_key}
use chat_bot.System.Rollback.{IsAddedFor}
use chat_bot.System.Restore.{IsAbsent}
use chat_bot.System.Instance.{
  HasSameLists, IsPresent, addresses, add_chat_to_instance-atomic, add_chat_to_instance-present,
}
use chat_bot.System.Create.{IsLeastFree, create_new_chat_id-client}
use chat_bot.System.Create.Server.{create_new_chat_id-server}
use chat_bot.System.Search.{
  IsWanted, find_user_by_text_part-IsWanted, find_user_by_text_part_complete,
}

abbrev anna : Account
anna = record {
  address = 1;
  login = 97 ∷ [];
  user_name = 65 ∷ 110 ∷ [];
  password_hash = 49 ∷ [];
  email = [];
  phone = [];
}

abbrev boris : Account
boris = record {
  address = 2;
  login = 98 ∷ [];
  user_name = 66 ∷ 111 ∷ [];
  password_hash = 50 ∷ [];
  email = [];
  phone = [];
}

-- Another user who wants anna's login.
abbrev intruder : Account
intruder = record {
  address = 3;
  login = 97 ∷ [];
  user_name = [];
  password_hash = 51 ∷ [];
  email = [];
  phone = [];
}

-- Two users, the first of whom has a chat.
abbrev system_of : Bool → ChatSystem
system_of is_server = record {
  users = anna ∷ boris ∷ [];
  chats = 11 ∷ [];
  active_user = some 1;
  login_user_map = (97 ∷ [], anna) ∷ (98 ∷ [], boris) ∷ [];
  chat_id_chat_map = (1, 11) ∷ [];
  next_chat_id_client = 1;
  is_server_status = is_server;
  free_chat_server_id_set = 5 ∷ [];
  chat_lists = (1, 11 ∷ []) ∷ (2, []) ∷ [];
}

-- A chat of both users, and one with a user who is gone.
abbrev chat_of : Option ℕ → Chat
chat_of second = record {
  chat_id = 2;
  participants =
      record { user = some 1; deleted_from_chat = false }
      ∷ record { user = second; deleted_from_chat = false }
      ∷ [];
  messages = [];
  message_id_map = [];
  next_message_id = 1;
  last_read_message_map = [];
  message_id_to_time_stamp = [];
  deleted_messages_map = [];
}

system-IsAbsent : IsAbsent 12 (system_of true).chat_lists
unfolding find has
system-IsAbsent user l h = ground (arith, h)

add_chat_to_instance-atomic_example :
    ((after : ChatSystem) × (add_chat_to_instance (some (12, chat_of none)) (system_of true)
        ≡ returned true after))
    ⊎ ((after : ChatSystem) × (add_chat_to_instance (some (12, chat_of none)) (system_of true)
          ≡ returned false after)
        × (after.chats ≡ 11 ∷ [])
        × (after.chat_id_chat_map ≡ (1, 11) ∷ [])
        × HasSameLists (system_of true).chat_lists after.chat_lists)
add_chat_to_instance-atomic_example =
    add_chat_to_instance-atomic 12 (chat_of none) (system_of true) refl system-IsAbsent

system-IsPresent : All (IsPresent (system_of true).chat_lists) (chat_of (some 2)).participants
unfolding find
system-IsPresent = ((1, 11 ∷ [], refl, refl), ((2, [], refl, refl), tt))

add_chat_to_instance-present_example :
    (after : ChatSystem) × (add_chat_to_instance (some (12, chat_of (some 2))) (system_of true)
      ≡ returned true after)
    × (after.chats ≡ 11 ∷ 12 ∷ [])
    × IsAddedFor 12
        (addresses (chat_of (some 2)).participants)
        (system_of true).chat_lists
        after.chat_lists
add_chat_to_instance-present_example =
    add_chat_to_instance-present 12 (chat_of (some 2)) (system_of true) refl system-IsPresent

create_new_chat_id-client_example :
    (id : ℕ) × (after : ChatSystem) × (create_new_chat_id 12 (system_of false) ≡ some (id, after))
    × IsLeastFree 1 ((1, 11) ∷ []) id
    × (find id after.chat_id_chat_map ≡ some 12)
create_new_chat_id-client_example =
    create_new_chat_id-client 12 (system_of false) refl (omega arith, tt)

-- The server without a free id.
abbrev used_up : ChatSystem
used_up = record (system_of true) { free_chat_server_id_set = [] }

create_new_chat_id-server_example :
    (id : ℕ) × (after : ChatSystem) × (create_new_chat_id 12 used_up ≡ some (id, after))
    × (((used_up.free_chat_server_id_set ≡ id ∷ after.free_chat_server_id_set)
          × (after.chat_id_chat_map ≡ used_up.chat_id_chat_map))
        ⊎ ((used_up.free_chat_server_id_set ≡ [])
            × (find id used_up.chat_id_chat_map ≡ none)
            × (find 1 after.chat_id_chat_map
                ≡ (if id == 1 then some 12 else find 1 used_up.chat_id_chat_map))))
create_new_chat_id-server_example = create_new_chat_id-server 12 1 used_up refl (omega arith, tt)

created_on_server :
    create_new_chat_id 12 used_up
    ≡ some (2, record used_up { chat_id_chat_map = (2, 12) ∷ (1, 11) ∷ [] })
unfolding create_new_chat_id create_on_server next_server_id through_int max_key insert find
created_on_server = refl

login_taken : find_user_by_login (97 ∷ []) (system_of true) ≡ some anna
unfolding find_user_by_login find same_text
login_taken = refl

abbrev newcomer : Account
newcomer = record {
  address = 4;
  login = 99 ∷ [];
  user_name = [];
  password_hash = 52 ∷ [];
  email = [];
  phone = [];
}

login_free : find_user_by_login (99 ∷ []) (system_of true) ≡ none
unfolding find_user_by_login find same_text
login_free = refl

find_user_by_text_part-IsWanted_example :
    All
      (IsWanted (text_to_lower (66 ∷ [])) (some 1))
      (find_user_by_text_part (66 ∷ []) (system_of true))
find_user_by_text_part-IsWanted_example = find_user_by_text_part-IsWanted (66 ∷ []) (system_of true)

boris-IsWanted : IsWanted (text_to_lower (66 ∷ [])) (some 1) boris
unfolding is_active to_lower text_to_lower
boris-IsWanted = (refl, inl ([], [], refl))

find_user_by_text_part_complete_example :
    find_user_by_text_part (66 ∷ []) (system_of true)
    ≡ matching_users (text_to_lower (66 ∷ [])) (some 1) (anna ∷ [])
      ++ boris ∷ matching_users (text_to_lower (66 ∷ [])) (some 1) []
find_user_by_text_part_complete_example =
    find_user_by_text_part_complete (66 ∷ []) (system_of true) boris (anna ∷ []) [] refl
      boris-IsWanted
