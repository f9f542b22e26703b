-- ===== src/Server/Shadowed.antt =====
-- A chat that gets the id of one that createNewChatSrv of
-- Shark_2_0_CLI/src/server/server_session.cpp gave up: the messages go to the other chat.
use chat_bot.Base.{
  ℕ, ◌+◌, ◌≡◌, refl, ap, ◌∙◌, inl, inr, true, false, Option, none, some, List, [], ◌∷◌, arith, ◌==◌,
  Option-cases,
}
use chat_bot.Base.Maps.{find, insert, find-assign, insert_old}
use chat_bot.Wire.Reader.{Bytes, ok, fault}
use chat_bot.Wire.ClassType
use chat_bot.Wire.Dto.{MessageDto, ChatDto}
use chat_bot.Chat.{Chat}
use chat_bot.Chat.Parts.{Message, bytes_key, nat_key}
use chat_bot.System.{Account, find_user_by_login, get_chat_by_id, create_on_server, register_chat}
use chat_bot.System.Create.Server.{create_new_chat_id-server_side}
use chat_bot.Server.{Server, ◌>>=◌, deref, lock_chat, store_chat}
use chat_bot.Server.RequestType
use chat_bot.Server.Dto.{StructDto, PacketDto, as_chat, as_message_chat}
use chat_bot.Server.Fill.{packet_of}
use chat_bot.Server.Create.{
  empty_chat, add_participants, after_added, create_new_chat_srv, add_to_chat, first_content,
  create_new_message_srv, create_new_message_chat_srv,
}
use chat_bot.Server.Replies.{Handled, reply, responce_packet, to_string, packet_0, packet_1}
use chat_bot.Server.Objects.{
  first_message_id, create_messages, create_chat, processing_create_objects,
}
use chat_bot.Server.Routing.{
  terminated, round_of, is_check_or_registry, is_create, routing_requests_from_client,
  listening_clients,
}
use chat_bot.Server.Sound.{IsSound, IsListed}
use chat_bot.Server.Chats.{added_system, added-eq-returned}
use chat_bot.Server.Chats.Participants.{
  create_on_server-IsNumbered, empty_chat-IsFresh, add_participants-IsFresh,
}
use chat_bot.Server.Answers.{header_of, listening_clients-header}
use chat_bot.Server.Faults.{
  FaultsOr, FaultsOr-bind, never-FaultsOr, packet_1-FaultsOr, as_message_chat-FaultsOr,
}
use chat_bot.Server.Leftover.{
  all_known, add_participants-all_known, add_participants-HasNoMessages, create_on_server-taken,
}

-- The id finds another chat than the one at the address, which has no messages.
abbrev IsShadowed : ℕ → ℕ → ℕ → Server → Type 0
IsShadowed id old address s =
    (find id s.system.chat_id_chat_map ≡ some old)
    × ((old == address) ≡ false)
    × (chat : Chat) × (find address s.chat_heap ≡ some chat)
    × (chat.messages ≡ [])

add_to_chat-IsShadowed :
    (id old address : ℕ) (message : Message) (sender : Account) (chat : Chat) (s : Server)
    → IsShadowed id old address s
    → IsShadowed id old address (add_to_chat message sender old chat s).1
unfolding add_to_chat store_chat
add_to_chat-IsShadowed id old address message sender chat s (found, differ, other, there, empty) =
    (found, differ, other, find-assign old address _ s.chat_heap ∙ rw differ there, empty)

create_new_message_srv-IsShadowed :
    (id old address : ℕ) (dto : MessageDto) (s : Server)
    → IsShadowed id old address s
    → FaultsOr
        (λ r. IsShadowed id old address r.1)
        (create_new_message_srv (record dto { chat_id = id }) s)
unfolding create_new_message_srv get_chat_by_id
create_new_message_srv-IsShadowed id old address dto s shadowed =
    elim (Option-cases (find_user_by_login dto.sender_login s.system)) [
      | inl unknown ↦ rw (shadowed.0, unknown, create_new_message_srv) shadowed
      | inr (sender, known) ↦ elim (Option-cases (first_content dto.message_content)) [
        | inl empty ↦ rw (shadowed.0, known, empty, create_new_message_srv) shadowed
        | inr (content, first) ↦
            rw (shadowed.0, known, first, create_new_message_srv)
              (FaultsOr-bind (λ chat. Unit) (λ r. IsShadowed id old address r.1)
                (deref (lock_chat old s)) _ (anything (lock_chat old s))
                (λ chat any. add_to_chat-IsShadowed id old address _ sender chat s shadowed))
      ]
    ]
  where
    anything : (o : Option Chat) → FaultsOr (λ chat. Unit) (deref o)
    anything none = tt
    anything (some chat) = tt

create_new_message_chat_srv-IsShadowed :
    (id old address : ℕ) (dtos : List MessageDto) (s : Server)
    → IsShadowed id old address s
    → FaultsOr (IsShadowed id old address) (create_new_message_chat_srv id dtos s)
unfolding create_new_message_chat_srv
create_new_message_chat_srv-IsShadowed id old address [] s shadowed = shadowed
create_new_message_chat_srv-IsShadowed id old address (dto ∷ dtos) s shadowed =
    FaultsOr-bind (λ r. IsShadowed id old address r.1) _
      (create_new_message_srv (record dto { chat_id = id }) s) _
      (create_new_message_srv-IsShadowed id old address dto s shadowed)
      (λ r after. create_new_message_chat_srv-IsShadowed id old address dtos r.1 after)

-- With a free id that finds a chat already, createNewChatSrv returns the id, which finds the old
-- chat as before.
create_new_chat_srv-IsShadowed :
    (id old address : ℕ) (free : List ℕ) (dto : ChatDto) (s : Server)
    → IsSound s
    → s.system.free_chat_server_id_set ≡ id ∷ free
    → find id s.system.chat_id_chat_map ≡ some old
    → (old == address) ≡ false
    → all_known dto.participants s.system.login_user_map ≡ true
    → (after : Server) × (create_new_chat_srv address dto s ≡ ok (id, after))
      × IsShadowed id old address after
unfolding create_new_chat_srv after_added store_chat register_chat empty_chat
create_new_chat_srv-IsShadowed id old address free dto s sound taken found differ known =
    let made = create_on_server address s.system in
    let (same_logins, same_lists, same_status, numbered) =
      create_on_server-IsNumbered address s.system in
    let (same_id, ids) = create_on_server-taken address id free s.system taken in
    let added = add_participants dto.participants made.1 (empty_chat made.0) in
    let complete : added.0 ≡ true =
      add_participants-all_known dto.participants made.1 (empty_chat made.0)
      ∙ ap (all_known dto.participants) same_logins
      ∙ known in
    let (chat_id, empty) =
      add_participants-HasNoMessages made.0 dto.participants made.1 (empty_chat made.0)
        (refl, refl) in
    let listed : IsListed made.1.login_user_map made.1.chat_lists =
      rw (same_logins, same_lists) sound.listed in
    let fresh =
      add_participants-IsFresh dto.participants made.1 (empty_chat made.0) listed
        (empty_chat-IsFresh made.1.chat_lists made.0) in
    let after =
      store_chat address added.1 (record s { system = added_system address added.1 made.1 }) in
    (
      after,
      rw (create_new_chat_id-server_side address s.system sound.server) (
            rw complete (
              ap (after_added made.0 address added.1 s)
                (added-eq-returned address added.1 made.1 (same_status ∙ sound.server) fresh.2)))
          ∙ ap (λ i. ok (i, after)) same_id,
      (
        ap (λ i. find id (insert i address made.1.chat_id_chat_map)) (chat_id ∙ same_id)
            ∙ ap (λ m. find id (insert id address m)) ids
            ∙ ap (find id) (insert_old id address old s.system.chat_id_chat_map found)
            ∙ found,
        differ,
        added.1,
        find-assign address address added.1 s.chat_heap ∙ ground arith,
        empty,
      ),
    )

-- The first message of the new chat is read, which has none.
create_messages-eq-fault :
    (id old address : ℕ) (packets : List PacketDto) (s : Server)
    → IsShadowed id old address s
    → create_messages id address packets s ≡ fault
unfolding create_messages lock_chat first_message_id
create_messages-eq-fault id old address packets s shadowed =
    never-FaultsOr (create_messages id address packets s) (
      FaultsOr-bind _ _ (packet_1 packets) _ (packet_1-FaultsOr packets) (λ packet any.
        FaultsOr-bind _ _ (as_message_chat packet.struct_dto_ptr) _
          (as_message_chat-FaultsOr packet.struct_dto_ptr)
          (λ dto some_dto.
            FaultsOr-bind (IsShadowed id old address) _
              (create_new_message_chat_srv id dto.messages s) _
              (create_new_message_chat_srv-IsShadowed id old address dto.messages s shadowed)
              (λ after (found, differ, chat, there, empty). unread after chat there empty))))
  where
    unread :
        (after : Server) (chat : Chat)
        → find address after.chat_heap ≡ some chat
        → chat.messages ≡ []
        → FaultsOr
            (λ (r : Handled × Server). ⊥)
            (deref (find address after.chat_heap) >>= λ c. first_message_id c >>= λ first.
              reply (responce_packet RequestType.create_chat true id (to_string first) ∷ []) after)
    unread after chat there empty = rw (there, first_message_id, empty) tt

-- Where a free id finds a chat already, as it does behind a chat that was given up, a request for a
-- chat whose participants are all known has no defined behaviour, and so ends the server, whatever
-- the messages behind it are.
pub listening_clients-shadowed :
    (t b id old : ℕ) (login : Bytes) (free : List ℕ) (dto : ChatDto) (packets : List PacketDto)
    (s : Server)
    → IsSound s
    → s.system.free_chat_server_id_set ≡ id ∷ free
    → find id s.system.chat_id_chat_map ≡ some old
    → (old == s.next_address) ≡ false
    → (id == 0) ≡ false
    → all_known dto.participants s.system.login_user_map ≡ true
    → listening_clients
        (header_of t b login
          ∷ packet_of RequestType.create_chat ClassType.chat (StructDto.chat dto)
          ∷ packets)
        s
      ≡ terminated
unfolding routing_requests_from_client packet_0 packet_of is_check_or_registry is_create
    processing_create_objects create_chat as_chat round_of
listening_clients-shadowed t b id old login free dto packets s sound taken found differ counted
      known =
    let p = packet_of RequestType.create_chat ClassType.chat (StructDto.chat dto) in
    let s' = record s { next_address = s.next_address + 1 } in
    let sound' : IsSound s' = record {
      consistent = sound.consistent;
      alive = sound.alive;
      listed = sound.listed;
      server = sound.server;
    } in
    let (after, created, shadowed) =
      create_new_chat_srv-IsShadowed id old s.next_address free dto s' sound' taken found differ
        known in
    listening_clients-header t b login p packets s
    ∙ rw created (
        rw counted
          (rw (create_messages-eq-fault id old s.next_address (p ∷ packets) after shadowed) refl))
