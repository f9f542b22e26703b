-- ===== src/Chat.antt =====
-- One chat: Shark_2_0_CLI/src/core/chat/chat.cpp, whose server side keeps all data in memory. What
-- the code prints on std::cout is left out.
pub mod Parts
pub mod Times
pub mod Ids
pub mod Invariant
pub mod ReadTimes
pub mod Unread
pub mod Deleted
mod Tests
use chat_bot.Base.{
  ℕ, ◌+◌, ◌%◌, ◌^◌, Bool, true, false, Option, none, some, List, [], ◌∷◌, ◌++◌, ◌==◌, if◌then◌else◌,
  length,
}
use chat_bot.Base.Int.{ℤ}
use chat_bot.Base.Maps.{find, insert, assign, erase}
use chat_bot.Wire.Reader.{Bytes, Outcome, ok, fault}
use Parts.{
  Message, User, Participant, bytes_key, nat_key, insert_message, upper_bound, insert_id, back, has,
}

pub record Chat : Type 0 where
  pub chat_id : ℕ
  pub participants : List Participant
  pub messages : List Message
  pub message_id_map : List ℕ
  pub next_message_id : ℕ
  pub last_read_message_map : List (Bytes × ℕ)
  pub message_id_to_time_stamp : List (ℕ × ℤ)
  pub deleted_messages_map : List (Bytes × List ℕ)

unfoldable pub get_last_read_message_id : User → Chat → ℕ
get_last_read_message_id user chat = elim (find user.login chat.last_read_message_map) [
  | none ↦ 0
  | some id ↦ id
]

-- lock() and the comparison of the pointers.
unfoldable pub is_user : User → Participant → Bool
is_user user participant = elim (participant.user) [
  | none ↦ false
  | some address ↦ address == user.address
]

-- A user that is no participant counts as deleted.
unfoldable pub deleted_flag : User → List Participant → Bool
deleted_flag user [] = true
deleted_flag user (p ∷ ps) =
    let later = deleted_flag user ps in if is_user user p then p.deleted_from_chat else later

unfoldable pub get_user_deleted_from_chat : User → Chat → Bool
get_user_deleted_from_chat user chat = deleted_flag user chat.participants

-- std::find_if, and the assignment through its iterator.
unfoldable pub mark_deleted : User → List Participant → List Participant
mark_deleted user [] = []
mark_deleted user (p ∷ ps) =
    let later = mark_deleted user ps in
    if is_user user p then record p { deleted_from_chat = true } ∷ ps else p ∷ later

unfoldable pub set_user_deleted_from_chat : User → Chat → Chat
set_user_deleted_from_chat user chat = record chat {
  participants = mark_deleted user chat.participants;
}

unfoldable pub set_message_id_map : ℕ → Chat → Chat
set_message_id_map message_id chat = record chat {
  message_id_map = insert_id message_id chat.message_id_map;
}

unfoldable pub set_next_message_id_client : ℕ → Chat → Chat
set_next_message_id_client next_message_id chat = record chat { next_message_id = next_message_id }

unfoldable pub set_chat_id : ℕ → Chat → Chat
set_chat_id chat_id chat = record chat { chat_id = chat_id }

unfoldable pub set_message_id_to_time_stamp : ℕ → ℤ → Chat → Chat
set_message_id_to_time_stamp message_id time_stamp chat = record chat {
  message_id_to_time_stamp = insert message_id time_stamp chat.message_id_to_time_stamp;
}

-- The entry found is assigned to the new id, and then erased.
unfoldable pub update_message_id_to_time_stamp : ℕ → ℕ → Chat → Chat
update_message_id_to_time_stamp old_message_id new_message_id chat =
    let stamps = chat.message_id_to_time_stamp in
    elim (find old_message_id stamps) [
      | none ↦ chat
      | some time_stamp ↦ record chat {
        message_id_to_time_stamp = erase old_message_id (assign new_message_id time_stamp stamps);
      }
    ]

-- The iterator that find returns is read without a test.
unfoldable pub get_time_stamp_for_last_message : ℕ → Chat → Outcome ℤ
get_time_stamp_for_last_message message_id chat =
    elim (find message_id chat.message_id_to_time_stamp) [
      | none ↦ fault
      | some time_stamp ↦ ok time_stamp
    ]

unfoldable pub set_last_read_message_id : User → ℕ → Chat → Chat
set_last_read_message_id user new_last_read_message_id chat = record chat {
  last_read_message_map = assign user.login new_last_read_message_id chat.last_read_message_map;
}

unfoldable pub add_participant : User → ℕ → Bool → Chat → Chat
add_participant user last_read_message_index deleted_from_chat chat =
    let participant : Participant = record {
      user = some user.address;
      deleted_from_chat = deleted_from_chat;
    } in
    set_last_read_message_id user last_read_message_index
      (record chat { participants = chat.participants ++ participant ∷ [] })

-- The addition is one of std::size_t.
unfoldable pub create_new_message_id : Chat → ℕ
create_new_message_id chat = elim (chat.message_id_map) [
  | [] ↦ 1
  | id ∷ ids ↦ (back id ids + 1) % 2 ^ 64
]

-- The message as the caller's pointer sees it behind the call.
unfoldable pub stamped : Bool → Message → Chat → Message
stamped is_server_session message chat =
    if is_server_session
    then record message { message_id = create_new_message_id chat }
    else message

unfoldable pub add_message_to_chat : Message → User → Bool → Chat → Chat
add_message_to_chat message sender is_server_session chat =
    let new = stamped is_server_session message chat in
    set_last_read_message_id sender new.message_id (
      set_message_id_to_time_stamp new.message_id new.time_stamp (
        set_message_id_map new.message_id
          (record chat { messages = insert_message new chat.messages })))

-- The answer, and the chat behind the call.
unfoldable pub set_deleted_message_map : Bytes → ℕ → Chat → Bool × Chat
set_deleted_message_map user_login deleted_message_id chat =
    let deleted = chat.deleted_messages_map in
    elim (find user_login deleted) [
      | none ↦ (
        true,
        record chat { deleted_messages_map = insert user_login (deleted_message_id ∷ []) deleted },
      )
      | some ids ↦ if has deleted_message_id ids then (false, chat) else (
        true,
        record chat { deleted_messages_map = assign user_login (deleted_message_id ∷ ids) deleted },
      )
    ]

unfoldable pub clear_chat : Chat → Bool × Chat
clear_chat chat = (
  true,
  record {
    chat_id = 0;
    participants = [];
    messages = [];
    message_id_map = [];
    next_message_id = 1;
    last_read_message_map = [];
    message_id_to_time_stamp = [];
    deleted_messages_map = [];
  },
)

unfoldable pub get_unread_message_count : User → Chat → ℕ
get_unread_message_count user chat = elim (find user.login chat.last_read_message_map) [
  | none ↦ length chat.messages
  | some id ↦ elim (find id chat.message_id_to_time_stamp) [
    | none ↦ length chat.messages
    | some time_stamp ↦ length (upper_bound time_stamp chat.messages)
  ]
]
