-- ===== src/Chat/Invariant.antt =====
-- A chat's containers agree with one another: Shark_2_0_CLI/src/core/chat/chat.cpp.
use chat_bot.Base.{
  ℕ, ◌-◌, ◌^◌, ◌<◌, ◌≡◌, subst, ◌∙◌, inl, inr, Bool, true, false, none, some, List, All, All-imp,
  arith, ◌==◌, ==_iff, Bool-cases,
}
use chat_bot.Base.Int.{ℤ}
use chat_bot.Base.Maps.{find, insert, find-insert_fresh}
use chat_bot.Chat.{
  Chat, create_new_message_id, stamped, add_message_to_chat, set_message_id_map,
  set_message_id_to_time_stamp, set_last_read_message_id,
}
use chat_bot.Chat.Parts.{Message, User, nat_key, insert_id, has}
use chat_bot.Chat.Times.{IsSorted, insert_message-IsSorted, All-insert_message}
use chat_bot.Chat.Ids.{
  IsAscending, insert_id-IsAscending, has-insert_id, create_new_message_id-fresh,
}

abbrev pub IsListed : List ℕ → Message → Type 0
IsListed ids m = has m.message_id ids ≡ true

abbrev pub IsDated : List (ℕ × ℤ) → Message → Type 0
IsDated stamps m = find m.message_id stamps ≡ some m.time_stamp

-- The messages stand in the order of their times, the set holds the id of each, the index finds
-- the time of each by its id, and it has no other ids than those of the set.
pub record IsConsistent (chat : Chat) : Type 0 where
  pub sorted : IsSorted chat.messages
  pub ascending : IsAscending chat.message_id_map
  pub listed : All (IsListed chat.message_id_map) chat.messages
  pub dated : All (IsDated chat.message_id_to_time_stamp) chat.messages
  pub known :
      (i : ℕ) → has i chat.message_id_map ≡ false → find i chat.message_id_to_time_stamp ≡ none

-- The id that the message gets is not one of the chat's.
abbrev pub IsNew : Bool → Message → Chat → Type 0
IsNew is_server_session message chat =
    has (stamped is_server_session message chat).message_id chat.message_id_map ≡ false

insert_id-IsListed :
    (i : ℕ) (ids : List ℕ) (m : Message) → IsListed ids m → IsListed (insert_id i ids) m
insert_id-IsListed i ids m h = ground (arith, has-insert_id i m.message_id ids, h)

-- A missing key and a present one differ.
keys_differ :
    (i j : ℕ) (t : ℤ) (stamps : List (ℕ × ℤ))
    → find i stamps ≡ none
    → find j stamps ≡ some t
    → (i == j) ≡ false
keys_differ i j t stamps fresh old = elim (Bool-cases (i == j)) [
  | inl equal ↦
      let gone : find j stamps ≡ none =
        subst (λ k. find k stamps ≡ none) ((==_iff i j).0 equal) fresh in
      absurd (ground (arith, gone, old))
  | inr other ↦ other
]

insert-IsDated :
    (i : ℕ) (t : ℤ) (stamps : List (ℕ × ℤ)) (m : Message)
    → find i stamps ≡ none
    → IsDated stamps m
    → IsDated (insert i t stamps) m
insert-IsDated i t stamps m fresh h =
    find-insert_fresh i m.message_id t stamps fresh
    ∙ rw (keys_differ i m.message_id m.time_stamp stamps fresh h) h

pub find-insert_self :
    (i : ℕ) (t : ℤ) (stamps : List (ℕ × ℤ))
    → find i stamps ≡ none
    → find i (insert i t stamps) ≡ some t
find-insert_self i t stamps fresh = find-insert_fresh i i t stamps fresh ∙ ground arith

known_after :
    (i : ℕ) (t : ℤ) (ids : List ℕ) (stamps : List (ℕ × ℤ))
    → find i stamps ≡ none
    → ((j : ℕ) → has j ids ≡ false → find j stamps ≡ none)
    → (j : ℕ) → has j (insert_id i ids) ≡ false
    → find j (insert i t stamps) ≡ none
known_after i t ids stamps fresh known j absent =
    find-insert_fresh i j t stamps fresh ∙ ground (arith, has-insert_id i j ids, known j, absent)

-- addMessageToChat keeps the containers of a chat in agreement when the id of the message is new
-- to the chat.
pub add_message_to_chat-IsConsistent :
    (message : Message) (sender : User) (is_server_session : Bool) (chat : Chat)
    → IsConsistent chat
    → IsNew is_server_session message chat
    → IsConsistent (add_message_to_chat message sender is_server_session chat)
unfolding add_message_to_chat set_message_id_map set_message_id_to_time_stamp
    set_last_read_message_id
add_message_to_chat-IsConsistent message sender is_server_session chat h new =
    let m = stamped is_server_session message chat in
    let i = m.message_id in
    let fresh : find i chat.message_id_to_time_stamp ≡ none = h.known i new in
    record {
      sorted = insert_message-IsSorted m chat.messages h.sorted;
      ascending = insert_id-IsAscending i chat.message_id_map h.ascending;
      listed =
          All-insert_message (IsListed (insert_id i chat.message_id_map)) m chat.messages
            (ground (arith, has-insert_id i i chat.message_id_map))
            (All-imp (IsListed chat.message_id_map) (IsListed (insert_id i chat.message_id_map))
              chat.messages (insert_id-IsListed i chat.message_id_map) h.listed);
      dated =
          All-insert_message (IsDated (insert i m.time_stamp chat.message_id_to_time_stamp)) m
            chat.messages (find-insert_self i m.time_stamp chat.message_id_to_time_stamp fresh)
            (All-imp (IsDated chat.message_id_to_time_stamp)
              (IsDated (insert i m.time_stamp chat.message_id_to_time_stamp)) chat.messages
              (λ x. insert-IsDated i m.time_stamp chat.message_id_to_time_stamp x fresh) h.dated);
      known =
          known_after i m.time_stamp chat.message_id_map chat.message_id_to_time_stamp fresh
            h.known;
    }

-- On the server the id of a message is new, as long as the ids of the chat are below 2 ^ 64 - 1.
pub server_message-IsNew :
    (message : Message) (chat : Chat)
    → IsConsistent chat
    → All (λ i. i < 2 ^ 64 - 1) chat.message_id_map
    → IsNew true message chat
unfolding stamped
server_message-IsNew message chat h below =
    elim (Bool-cases (has (create_new_message_id chat) chat.message_id_map)) [
      | inl listed ↦ absurd (
          omega (
            arith,
            create_new_message_id-fresh chat (create_new_message_id chat) h.ascending below listed,
          ))
      | inr new ↦ new
    ]
