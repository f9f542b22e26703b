-- ===== src/Chat/Tests.antt =====
-- Tests of the chat, and the theorems at concrete chats.
use chat_bot.Base.{ℕ, ◌<◌, ◌≡◌, refl, true, false, not, ◌||◌, ◌&&◌, some, [], ◌∷◌, arith, ◌==◌}
use chat_bot.Base.Int.{pos}
use chat_bot.Base.Maps.{find}
use chat_bot.Text.Utf8.{same_text}
use chat_bot.Chat.{
  Chat, create_new_message_id, stamped, add_message_to_chat, get_unread_message_count,
  set_deleted_message_map,
}
use chat_bot.Chat.Parts.{User, Message, bytes_key, nat_key, upper_bound, back, has}
use chat_bot.Chat.Times.{later_count}
use chat_bot.Chat.Ids.{create_new_message_id-fresh}
use chat_bot.Chat.Invariant.{
  IsConsistent, IsNew, add_message_to_chat-IsConsistent, server_message-IsNew,
}
use chat_bot.Chat.ReadTimes.{last_read_time}
use chat_bot.Chat.Unread.{
  is_unread, get_unread_message_count-sender, get_unread_message_count-other,
}
use chat_bot.Chat.Deleted.{is_deleted, set_deleted_message_map_lem}

abbrev anna : User
anna = record { address = 1; login = 97 ∷ [] }

abbrev boris : User
boris = record { address = 2; login = 98 ∷ [] }

abbrev message_at : ℕ → Message
message_at t = record { content = []; sender = some 1; time_stamp = pos t; message_id = 0 }

abbrev first_message : Message
first_message = record { content = []; sender = some 1; time_stamp = pos 10; message_id = 7 }

-- A chat with one message, which anna sent.
abbrev one_message : Chat
one_message = record {
  chat_id = 1;
  participants =
      record { user = some 1; deleted_from_chat = false }
      ∷ record { user = some 2; deleted_from_chat = false }
      ∷ [];
  messages = first_message ∷ [];
  message_id_map = 7 ∷ [];
  next_message_id = 1;
  last_read_message_map = (97 ∷ [], 7) ∷ [];
  message_id_to_time_stamp = (7, pos 10) ∷ [];
  deleted_messages_map = (98 ∷ [], 7 ∷ []) ∷ [];
}

one_message-IsConsistent : IsConsistent one_message
unfolding find has
one_message-IsConsistent = record {
  sorted = (tt, tt);
  ascending = (tt, tt);
  listed = (refl, tt);
  dated = (refl, tt);
  known = λ i h. ground (arith, h);
}

one_message-IsNew : (m : Message) → IsNew true m one_message
unfolding stamped create_new_message_id back has
one_message-IsNew m = refl

create_new_message_id-fresh_example : 7 < create_new_message_id one_message
unfolding has
create_new_message_id-fresh_example =
    create_new_message_id-fresh one_message 7 (tt, tt) (omega arith, tt) refl

server_message-IsNew_example : IsNew true (message_at 20) one_message
server_message-IsNew_example =
    server_message-IsNew (message_at 20) one_message one_message-IsConsistent (omega arith, tt)

add_message_to_chat-IsConsistent_example :
    IsConsistent (add_message_to_chat (message_at 20) boris true one_message)
add_message_to_chat-IsConsistent_example =
    add_message_to_chat-IsConsistent (message_at 20) boris true one_message one_message-IsConsistent
      (one_message-IsNew (message_at 20))

get_unread_message_count-sender_example :
    get_unread_message_count boris (add_message_to_chat (message_at 20) boris true one_message) ≡ 0
unfolding stamped later_count
get_unread_message_count-sender_example =
    get_unread_message_count-sender (message_at 20) boris true one_message one_message-IsConsistent
      (one_message-IsNew (message_at 20))

get_unread_message_count-other_example :
    get_unread_message_count anna (add_message_to_chat (message_at 20) boris true one_message) ≡ 1
unfolding stamped find same_text last_read_time is_unread get_unread_message_count upper_bound
    create_new_message_id back
get_unread_message_count-other_example =
    get_unread_message_count-other (message_at 20) boris anna true one_message
      one_message-IsConsistent (one_message-IsNew (message_at 20)) (λ e. absurd (ground (arith, e)))
      (λ e. absurd (ground (arith, e)))

set_deleted_message_map_lem_example :
    ((set_deleted_message_map (98 ∷ []) 7 one_message).0 ≡ not (is_deleted (98 ∷ []) 7 one_message))
    × (is_deleted (98 ∷ []) 7 (set_deleted_message_map (98 ∷ []) 7 one_message).1
        ≡ (same_text (98 ∷ []) (98 ∷ []) && 7 == 7 || is_deleted (98 ∷ []) 7 one_message))
set_deleted_message_map_lem_example =
    set_deleted_message_map_lem (98 ∷ []) 7 one_message (98 ∷ []) 7
