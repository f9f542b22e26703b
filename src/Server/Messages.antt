-- ===== src/Server/Messages.antt =====
-- createNewMessageSrv and createNewMessageChatSrv of Shark_2_0_CLI/src/server/server_session.cpp keep
-- the state of the server sound, as long as no chat runs out of message ids.
use chat_bot.Base.{
  ℕ, suc, ◌+◌, ◌-◌, ◌^◌, ◌≤◌, ◌<◌, ◌≡◌, sym, subst, ap, ◌∙◌, inl, inr, true, some, List, [], ◌∷◌,
  All, All-imp, arith, ◌==◌, if◌then◌else◌, Bool-cases, Option-cases, length,
}
use chat_bot.Base.Maps.{find, assign, find-assign}
use chat_bot.Wire.Dto.{MessageDto}
use chat_bot.Chat.{
  Chat, stamped, create_new_message_id, add_message_to_chat, set_message_id_map,
  set_message_id_to_time_stamp, set_last_read_message_id,
}
use chat_bot.Chat.Parts.{Message, User, nat_key}
use chat_bot.Chat.Ids.{create_new_message_id-le, All-insert_id_of}
use chat_bot.Chat.Invariant.{add_message_to_chat-IsConsistent, server_message-IsNew}
use chat_bot.System.{Account, find_user_by_login, get_chat_by_id}
use chat_bot.Server.{Server, user_of, lock_chat, store_chat}
use chat_bot.Server.Create.{
  create_one_message, add_to_chat, first_content, create_new_message_srv,
  create_new_message_chat_srv,
}
use chat_bot.Server.Ends.{Returns, Returns-bind}
use chat_bot.Server.Sound.{IsSound, store_chat-IsSound, some_inj}

-- Ids for n messages are left in each chat.
abbrev pub HasRoom : ℕ → Chat → Type 0
HasRoom n chat = All (λ i. i + n < 2 ^ 64 - 1) chat.message_id_map

abbrev pub IsRoomy : ℕ → List (ℕ × Chat) → Type 0
IsRoomy n heap = (address : ℕ) (chat : Chat) → find address heap ≡ some chat → HasRoom n chat

pub IsRoomy-le : (n k : ℕ) (heap : List (ℕ × Chat)) → k ≤ n → IsRoomy n heap → IsRoomy k heap
IsRoomy-le n k heap le h address chat found =
    All-imp _ _ chat.message_id_map (λ i less. omega arith) (h address chat found)

pub assign-IsRoomy :
    (n new : ℕ) (chat : Chat) (heap : List (ℕ × Chat))
    → HasRoom n chat
    → IsRoomy n heap
    → IsRoomy n (assign new chat heap)
assign-IsRoomy n new chat heap here h address other found =
    let at = find-assign new address chat heap in
    elim (Bool-cases (new == address)) [
      | inl equal ↦
          subst (HasRoom n)
            (some_inj chat other
              (sym (at ∙ ap (λ b. if b then some chat else find address heap) equal) ∙ found))
            here
      | inr differ ↦
          h address other
            (sym (at ∙ ap (λ b. if b then some chat else find address heap) differ) ∙ found)
    ]

-- A message takes one id.
add_message_to_chat-HasRoom :
    (n : ℕ) (message : Message) (sender : User) (chat : Chat)
    → suc n < 2 ^ 64 - 1
    → HasRoom (suc n) chat
    → HasRoom n (add_message_to_chat message sender true chat)
unfolding add_message_to_chat set_message_id_map set_message_id_to_time_stamp
    set_last_read_message_id stamped
add_message_to_chat-HasRoom n message sender chat small h =
    let new : create_new_message_id chat ≤ 2 ^ 64 - 2 - n =
      create_new_message_id-le chat (2 ^ 64 - 2 - n) (omega arith) (omega arith)
        (All-imp _ _ chat.message_id_map (λ i less. omega arith) h) in
    All-insert_id_of (λ i. i + n < 2 ^ 64 - 1) (create_new_message_id chat) chat.message_id_map
      (omega (arith, new)) (All-imp _ _ chat.message_id_map (λ i less. omega arith) h)

-- What the server keeps, with ids left for n messages.
abbrev pub IsReady : ℕ → Server → Type 0
IsReady n s = IsSound s × IsRoomy n s.chat_heap

-- A message that is added to a chat of the server.
add_to_chat-IsReady :
    (n : ℕ) (message : Message) (sender : Account) (address : ℕ) (chat : Chat) (s : Server)
    → suc n < 2 ^ 64 - 1
    → IsReady (suc n) s
    → find address s.chat_heap ≡ some chat
    → IsReady n (add_to_chat message sender address chat s).1
unfolding add_to_chat store_chat
add_to_chat-IsReady n message sender address chat s small (sound, roomy) there =
    let room = roomy address chat there in
    let here = sound.consistent address chat there in
    (
      store_chat-IsSound address (add_message_to_chat message (user_of sender) true chat) s sound (
          add_message_to_chat-IsConsistent message (user_of sender) true chat here (
            server_message-IsNew message chat here
              (All-imp _ _ chat.message_id_map (λ i less. omega arith) room))),
      assign-IsRoomy n address (add_message_to_chat message (user_of sender) true chat) s.chat_heap
          (add_message_to_chat-HasRoom n message (user_of sender) chat small room)
          (IsRoomy-le (suc n) n s.chat_heap (omega arith) roomy),
    )

-- createNewMessageSrv returns, and the chats of the server still agree with themselves.
pub create_new_message_srv-IsReady :
    (n : ℕ) (dto : MessageDto) (s : Server)
    → suc n < 2 ^ 64 - 1
    → IsReady (suc n) s
    → Returns (λ r. IsReady n r.1) (create_new_message_srv dto s)
unfolding create_new_message_srv get_chat_by_id lock_chat
create_new_message_srv-IsReady n dto s small ready =
    let same : IsReady n s = (ready.0, IsRoomy-le (suc n) n s.chat_heap (omega arith) ready.1) in
    elim (Option-cases (find dto.chat_id s.system.chat_id_chat_map)) [
      | inl missing ↦ rw (missing, create_new_message_srv) same
      | inr (address, found) ↦ elim (Option-cases (find_user_by_login dto.sender_login s.system)) [
        | inl unknown ↦ rw (found, unknown, create_new_message_srv) same
        | inr (sender, known) ↦ elim (Option-cases (first_content dto.message_content)) [
          | inl empty ↦ rw (found, known, empty, create_new_message_srv) same
          | inr (content, first) ↦
              let (chat, there) = ready.0.alive dto.chat_id address found in
              rw (found, known, first, there, create_new_message_srv)
                (add_to_chat-IsReady n (create_one_message content sender dto) sender address chat s
                  small ready there)
        ]
      ]
    ]

-- The messages of one packet.
pub create_new_message_chat_srv-IsReady :
    (n chat_id : ℕ) (dtos : List MessageDto) (s : Server)
    → length dtos + n < 2 ^ 64 - 1
    → IsReady (length dtos + n) s
    → Returns (IsReady n) (create_new_message_chat_srv chat_id dtos s)
unfolding create_new_message_chat_srv
create_new_message_chat_srv-IsReady n chat_id [] s small ready =
    subst (λ k. IsReady k s) (omega arith) ready
create_new_message_chat_srv-IsReady n chat_id (dto ∷ dtos) s small ready =
    Returns-bind (λ r. IsReady (length dtos + n) r.1) (IsReady n)
      (create_new_message_srv (record dto { chat_id = chat_id }) s) _
      (create_new_message_srv-IsReady (length dtos + n) (record dto { chat_id = chat_id }) s
        (omega (arith, small)) (subst (λ k. IsReady k s) (omega arith) ready))
      (λ r after.
        create_new_message_chat_srv-IsReady n chat_id dtos r.1 (omega (arith, small)) after)
