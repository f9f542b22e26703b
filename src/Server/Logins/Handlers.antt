-- ===== src/Server/Logins/Handlers.antt =====
-- The handlers of Shark_2_0_CLI/src/server/server_session.cpp that do not create users leave the
-- logins as they were.
use chat_bot.Base.{ℕ, ◌+◌, ◌≡◌, refl, inl, inr, false, List, ◌∷◌, ◌==◌, Option-cases}
use chat_bot.Wire.Reader.{Outcome, ok, throw, fault}
use chat_bot.Chat.Parts.{bytes_key}
use chat_bot.System.{find_user_by_login, get_chat_by_id}
use chat_bot.Server.{Server, deref, lock_chat, store_chat}
use chat_bot.Server.RequestType
use chat_bot.Server.Dto.{PacketDto, as_message, as_chat, as_message_chat}
use chat_bot.Server.Create.{
  create_new_chat_srv, create_new_message_srv, create_new_message_chat_srv,
}
use chat_bot.Server.Replies.{Handled, packet_0, packet_1}
use chat_bot.Server.Registry.{
  last_read_set, set_last_read_message, processing_check_and_registry_user,
}
use chat_bot.Server.Objects.{
  first_message_id, create_messages, create_chat, create_message, processing_create_objects,
}
use chat_bot.Server.Routing.{ignored, is_check_or_registry, is_create, routing_requests_from_client}
use chat_bot.Server.Ends.{Ensures-bind, Ensures-any, Ensures-if}
use chat_bot.Server.Queries.{
  Keeps, check_login-Keeps, check_log_password-Keeps, register_user-Keeps, find_user_by_part-Keeps,
  processing_get_indexes-Keeps,
}
use chat_bot.Server.Logins.{
  HasSameLogins, KeepsLogins, create_new_chat_srv-KeepsLogins, create_new_message_srv-KeepsLogins,
  create_new_message_chat_srv-KeepsLogins,
}

create_messages-KeepsLogins :
    (id address : ℕ) (packets : List PacketDto) (before s : Server)
    → HasSameLogins before.system s.system
    → KeepsLogins before (create_messages id address packets s)
unfolding create_messages
create_messages-KeepsLogins id address packets before s same =
    Ensures-any _ (packet_1 packets) _ (λ packet.
      Ensures-any _ (as_message_chat packet.struct_dto_ptr) _ (λ dto.
        Ensures-bind (λ after. HasSameLogins before.system after.system) _
          (create_new_message_chat_srv id dto.messages s) _
          (create_new_message_chat_srv-KeepsLogins id dto.messages before s same)
          (λ after kept.
            Ensures-any _ (deref (lock_chat address after)) _
              (λ chat. Ensures-any _ (first_message_id chat) _ (λ first. kept)))))

create_chat-KeepsLogins :
    (packets : List PacketDto) (s : Server) → KeepsLogins s (create_chat packets s)
unfolding create_chat
create_chat-KeepsLogins packets s =
    let P : Handled × Server → Type 0 = λ r. HasSameLogins s.system r.1.system in
    let s' = record s { next_address = s.next_address + 1 } in
    Ensures-any P (packet_0 packets) _ (λ packet.
      Ensures-any P (as_chat packet.struct_dto_ptr) _ (λ dto.
        Ensures-bind (λ r. HasSameLogins s.system r.1.system) P
          (create_new_chat_srv s.next_address dto s') _
          (create_new_chat_srv-KeepsLogins s.next_address dto s')
          (λ r kept.
            Ensures-if P (r.0 == 0) _ _ kept
              (create_messages-KeepsLogins r.0 s.next_address packets s r.1 kept))))

create_message-KeepsLogins :
    (packets : List PacketDto) (s : Server) → KeepsLogins s (create_message packets s)
unfolding create_message
create_message-KeepsLogins packets s =
    let P : Handled × Server → Type 0 = λ r. HasSameLogins s.system r.1.system in
    Ensures-any P (packet_0 packets) _ (λ packet.
      Ensures-any P (as_message packet.struct_dto_ptr) _ (λ dto.
        Ensures-bind (λ r. HasSameLogins s.system r.1.system) P (create_new_message_srv dto s) _
          (create_new_message_srv-KeepsLogins dto s)
          (λ r kept. Ensures-if P (r.0 == 0) _ _ kept kept)))

set_last_read_message-KeepsLogins :
    (packets : List PacketDto) (s : Server) → KeepsLogins s (set_last_read_message packets s)
unfolding set_last_read_message last_read_set store_chat
set_last_read_message-KeepsLogins packets s = Ensures-any _ (packet_0 packets) _ (λ packet.
    Ensures-any _ (as_message packet.struct_dto_ptr) _ (λ dto.
      elim (Option-cases (find_user_by_login dto.sender_login s.system)) [
        | inl unknown ↦ rw unknown refl
        | inr (account, known) ↦ elim (Option-cases (get_chat_by_id dto.chat_id s.system)) [
          | inl missing ↦ rw (known, missing) refl
          | inr (address, found) ↦
              rw (known, found) (Ensures-any _ (deref (lock_chat address s)) _ (λ chat. refl))
        ]
      ]))

processing_check_and_registry_user-KeepsLogins :
    (t : ℕ) (packets : List PacketDto) (s : Server)
    → KeepsLogins s (processing_check_and_registry_user t packets s)
unfolding processing_check_and_registry_user
processing_check_and_registry_user-KeepsLogins t packets s =
    let Q : Server → Type 0 = λ after. HasSameLogins s.system after.system in
    let P : Handled × Server → Type 0 = λ r. Q r.1 in
    Ensures-if P (t == RequestType.check_login) _ _ (check_login-Keeps Q packets s refl) (
      Ensures-if P (t == RequestType.check_log_password) _ _
        (check_log_password-Keeps Q packets s refl)
        (Ensures-if P (t == RequestType.register_user) _ _ (register_user-Keeps Q packets s refl) (
          Ensures-if P (t == RequestType.find_user_by_part) _ _
            (find_user_by_part-Keeps Q packets s refl)
            (Ensures-if P (t == RequestType.set_last_read_message) _ _
              (set_last_read_message-KeepsLogins packets s) tt))))

processing_create_objects-KeepsLogins :
    (t : ℕ) (packets : List PacketDto) (s : Server)
    → (t == RequestType.create_user) ≡ false
    → KeepsLogins s (processing_create_objects t packets s)
unfolding processing_create_objects
processing_create_objects-KeepsLogins t packets s differ =
    let P : Handled × Server → Type 0 = λ r. HasSameLogins s.system r.1.system in
    rw differ (
      Ensures-if P (t == RequestType.create_chat) _ _ (create_chat-KeepsLogins packets s) (
        Ensures-if P (t == RequestType.create_message) _ _ (create_message-KeepsLogins packets s)
          refl))

ignored-Keeps :
    (P : Server → Type 0) (m : Outcome (Handled × Server)) → Keeps P m → Keeps P (ignored m)
ignored-Keeps P (ok (handled, s)) h = h
ignored-Keeps P (throw e) h = tt
ignored-Keeps P fault h = tt

pub routing-KeepsLogins :
    (p : PacketDto) (ps : List PacketDto) (s : Server)
    → (p.request_type == RequestType.create_user) ≡ false
    → KeepsLogins s (routing_requests_from_client (p ∷ ps) s)
unfolding routing_requests_from_client packet_0
routing-KeepsLogins p ps s differ =
    let t = p.request_type in
    let Q : Server → Type 0 = λ after. HasSameLogins s.system after.system in
    let P : Handled × Server → Type 0 = λ r. Q r.1 in
    Ensures-if P (is_check_or_registry t) _ _
      (ignored-Keeps Q _ (processing_check_and_registry_user-KeepsLogins t (p ∷ ps) s))
      (Ensures-if P (is_create t) _ _ (processing_create_objects-KeepsLogins t (p ∷ ps) s differ) (
        Ensures-if P (t == RequestType.get_users_data) _ _
          (ignored-Keeps Q _ (processing_get_indexes-Keeps Q (p ∷ ps) s refl)) refl))
