-- ===== src/Chat/Unread.antt =====
-- getUnreadMessageCount of Shark_2_0_CLI/src/core/chat/chat.cpp, and what addMessageToChat changes of it.
use chat_bot.Base.{
  suc, ◌≡◌, ◌≢◌, ◌∙◌, inl, inr, Bool, true, Option, none, some, arith, if◌then◌else◌, Option-cases,
  length,
}
use chat_bot.Base.Int.{ℤ, ltb_ℤ}
use chat_bot.Base.Maps.{find}
use chat_bot.Chat.{Chat, stamped, add_message_to_chat, get_unread_message_count}
use chat_bot.Chat.Parts.{Message, User, bytes_key, nat_key, upper_bound}
use chat_bot.Chat.Times.{
  later_count, length-upper_bound, length-insert_message, later_count-insert_message,
}
use chat_bot.Chat.Invariant.{IsConsistent, IsNew, add_message_to_chat-IsConsistent}
use chat_bot.Chat.ReadTimes.{
  last_read_time, messages-add_message_to_chat, last_read_time-sender, last_read_time-other,
}

-- Whether the user, who has read up to that time, has not read a message.
unfoldable pub is_unread : Option ℤ → Message → Bool
is_unread none m = true
is_unread (some t) m = ltb_ℤ t m.time_stamp

unread_by_time :
    (user : User) (chat : Chat)
    → get_unread_message_count user chat ≡ elim (last_read_time user chat) [
      | none ↦ length chat.messages
      | some t ↦ length (upper_bound t chat.messages)
    ]
unfolding get_unread_message_count last_read_time
unread_by_time user chat = elim (Option-cases (find user.login chat.last_read_message_map)) [
  | inl never ↦ rw (never, get_unread_message_count, last_read_time)
  | inr (id, read) ↦ rw (read, get_unread_message_count, last_read_time)
]

unread-never :
    (user : User) (chat : Chat)
    → last_read_time user chat ≡ none
    → get_unread_message_count user chat ≡ length chat.messages
unread-never user chat h = unread_by_time user chat ∙ rw h

unread-since :
    (user : User) (chat : Chat) (t : ℤ)
    → IsConsistent chat
    → last_read_time user chat ≡ some t
    → get_unread_message_count user chat ≡ later_count t chat.messages
unread-since user chat t consistent h =
    unread_by_time user chat ∙ rw h (length-upper_bound t chat.messages consistent.sorted)

-- After addMessageToChat with a new id, the sender's unread messages are those of the chat that
-- are later than the message sent: none that was sent before it is left unread.
pub get_unread_message_count-sender :
    (message : Message) (sender : User) (is_server_session : Bool) (chat : Chat)
    → IsConsistent chat
    → IsNew is_server_session message chat
    → get_unread_message_count sender (add_message_to_chat message sender is_server_session chat)
      ≡ later_count (stamped is_server_session message chat).time_stamp chat.messages
get_unread_message_count-sender message sender is_server_session chat h new =
    let m = stamped is_server_session message chat in
    unread-since sender (add_message_to_chat message sender is_server_session chat) m.time_stamp
      (add_message_to_chat-IsConsistent message sender is_server_session chat h new)
      (last_read_time-sender message sender is_server_session chat h new)
    ∙ rw (messages-add_message_to_chat message sender is_server_session chat)
        (later_count-insert_message m.time_stamp m chat.messages ∙ ground arith)

-- For any other user, addMessageToChat with a new id counts one unread message more if the message
-- is later than the last one that the user has read, or if none is on record as read, and leaves
-- the count as it was otherwise. The last message read is not on record under the new id.
pub get_unread_message_count-other :
    (message : Message) (sender user : User) (is_server_session : Bool) (chat : Chat)
    → IsConsistent chat
    → IsNew is_server_session message chat
    → sender.login ≢ user.login
    → find user.login chat.last_read_message_map
      ≢ some (stamped is_server_session message chat).message_id
    → get_unread_message_count user (add_message_to_chat message sender is_server_session chat) ≡ (
        if is_unread (last_read_time user chat) (stamped is_server_session message chat)
        then suc (get_unread_message_count user chat)
        else get_unread_message_count user chat)
unfolding is_unread
get_unread_message_count-other message sender user is_server_session chat h new differ unread =
    let m = stamped is_server_session message chat in
    let after = add_message_to_chat message sender is_server_session chat in
    let same_time =
      last_read_time-other message sender user is_server_session chat h new differ unread in
    let grown = messages-add_message_to_chat message sender is_server_session chat in
    elim (Option-cases (last_read_time user chat)) [
      | inl never ↦
          rw
            (
              never,
              unread-never user after (same_time ∙ never),
              unread-never user chat never,
              grown,
            )
            (length-insert_message m chat.messages)
      | inr (t, read) ↦
          rw
            (
              read,
              unread-since user after t
                  (add_message_to_chat-IsConsistent message sender is_server_session chat h new)
                  (same_time ∙ read),
              unread-since user chat t h read,
              grown,
            )
            (later_count-insert_message t m chat.messages)
    ]
