-- ===== src/Chat/ReadTimes.antt =====
-- The time up to which a user has read a chat of Shark_2_0_CLI/src/core/chat/chat.cpp, and what
-- addMessageToChat changes of it.
use chat_bot.Base.{
  ℕ, ◌≡◌, ◌≢◌, refl, ap, sym, ◌∙◌, inl, inr, Bool, false, Option, none, some, List, arith, ◌==◌,
  Bool-cases, Option-cases,
}
use chat_bot.Base.Int.{ℤ}
use chat_bot.Base.Maps.{find, insert, assign, find-assign, find-insert_fresh}
use chat_bot.Wire.Reader.{Bytes}
use chat_bot.Text.Utf8.{same_text}
use chat_bot.Chat.{
  Chat, stamped, add_message_to_chat, set_message_id_map, set_message_id_to_time_stamp,
  set_last_read_message_id,
}
use chat_bot.Chat.Parts.{Message, User, bytes_key, nat_key, same_text_iff, insert_message}
use chat_bot.Chat.Invariant.{IsConsistent, IsNew, find-insert_self}

-- The time of the last message that the user has read, if there is one on record.
unfoldable pub last_read_time : User → Chat → Option ℤ
last_read_time user chat = elim (find user.login chat.last_read_message_map) [
  | none ↦ none
  | some id ↦ find id chat.message_id_to_time_stamp
]

pub messages-add_message_to_chat :
    (message : Message) (sender : User) (is_server_session : Bool) (chat : Chat)
    → (add_message_to_chat message sender is_server_session chat).messages
      ≡ insert_message (stamped is_server_session message chat) chat.messages
unfolding add_message_to_chat set_message_id_map set_message_id_to_time_stamp
    set_last_read_message_id
messages-add_message_to_chat message sender is_server_session chat = refl

last_read_time-none :
    (user : User) (chat : Chat)
    → find user.login chat.last_read_message_map ≡ none
    → last_read_time user chat ≡ none
unfolding last_read_time
last_read_time-none user chat h = rw (h, last_read_time)

last_read_time-some :
    (user : User) (chat : Chat) (id : ℕ)
    → find user.login chat.last_read_message_map ≡ some id
    → last_read_time user chat ≡ find id chat.message_id_to_time_stamp
unfolding last_read_time
last_read_time-some user chat id h = rw (h, last_read_time)

pub last_read_time-sender :
    (message : Message) (sender : User) (is_server_session : Bool) (chat : Chat)
    → IsConsistent chat
    → IsNew is_server_session message chat
    → last_read_time sender (add_message_to_chat message sender is_server_session chat)
      ≡ some (stamped is_server_session message chat).time_stamp
unfolding add_message_to_chat set_message_id_map set_message_id_to_time_stamp
    set_last_read_message_id
last_read_time-sender message sender is_server_session chat h new =
    let m = stamped is_server_session message chat in
    let read : find sender.login (assign sender.login m.message_id chat.last_read_message_map)
        ≡ some m.message_id =
      find-assign sender.login sender.login m.message_id chat.last_read_message_map
      ∙ rw ((same_text_iff sender.login sender.login).1 refl) in
    last_read_time-some sender (add_message_to_chat message sender is_server_session chat)
      m.message_id read
    ∙ find-insert_self m.message_id m.time_stamp chat.message_id_to_time_stamp
        (h.known m.message_id new)

-- What addMessageToChat leaves of the last message that another user has read.
find-assign_other :
    (sender user : User) (id : ℕ) (entries : List (Bytes × ℕ))
    → sender.login ≢ user.login
    → find user.login (assign sender.login id entries) ≡ find user.login entries
find-assign_other sender user id entries h =
    find-assign sender.login user.login id entries
    ∙ elim (Bool-cases (same_text sender.login user.login)) [
      | inl equal ↦ absurd (h ((same_text_iff sender.login user.login).0 equal))
      | inr other ↦ rw other
    ]

find-insert_other :
    (i id : ℕ) (t : ℤ) (stamps : List (ℕ × ℤ))
    → find i stamps ≡ none
    → i ≢ id
    → find id (insert i t stamps) ≡ find id stamps
find-insert_other i id t stamps fresh h =
    find-insert_fresh i id t stamps fresh
    ∙ (let other : (i == id) ≡ false = ground arith in rw other)

pub last_read_time-other :
    (message : Message) (sender user : User) (is_server_session : Bool) (chat : Chat)
    → IsConsistent chat
    → IsNew is_server_session message chat
    → sender.login ≢ user.login
    → find user.login chat.last_read_message_map
      ≢ some (stamped is_server_session message chat).message_id
    → last_read_time user (add_message_to_chat message sender is_server_session chat)
      ≡ last_read_time user chat
unfolding add_message_to_chat set_message_id_map set_message_id_to_time_stamp
    set_last_read_message_id
last_read_time-other message sender user is_server_session chat h new differ unread =
    let m = stamped is_server_session message chat in
    let after = add_message_to_chat message sender is_server_session chat in
    let kept = find-assign_other sender user m.message_id chat.last_read_message_map differ in
    elim (Option-cases (find user.login chat.last_read_message_map)) [
      | inl never ↦
          last_read_time-none user after (kept ∙ never) ∙ sym (last_read_time-none user chat never)
      | inr (id, read) ↦
          last_read_time-some user after id (kept ∙ read)
          ∙ find-insert_other m.message_id id m.time_stamp chat.message_id_to_time_stamp
              (h.known m.message_id new) (λ e. unread (read ∙ ap some (sym e)))
          ∙ sym (last_read_time-some user chat id read)
    ]
