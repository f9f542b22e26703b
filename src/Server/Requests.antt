-- ===== src/Server/Requests.antt =====
-- routingRequestsFromClient and listeningClients of Shark_2_0_CLI/src/server/server_session.cpp keep
-- the state of the server sound.
use chat_bot.Base.{
  ℕ, ◌+◌, ◌-◌, ◌^◌, ◌<◌, ◌≡◌, inl, inr, not, some, List, [], ◌∷◌, arith, ◌==◌, Option-cases, length,
}
use chat_bot.Base.Maps.{find}
use chat_bot.Wire.ClassType
use chat_bot.Wire.Dto.{UserLoginPasswordDto}
use chat_bot.Wire.Reader.{Outcome, ok, throw, fault, empty_packet}
use chat_bot.Text.Utf8.{same_text}
use chat_bot.Request.{user_heder}
use chat_bot.Chat.{Chat, set_last_read_message_id}
use chat_bot.Chat.Parts.{nat_key}
use chat_bot.System.{Account, find_user_by_login, get_chat_by_id}
use chat_bot.Server.{Server, user_of, lock_chat, store_chat}
use chat_bot.Server.RequestType
use chat_bot.Server.Dto.{PacketDto, as_user_login_password, as_message}
use chat_bot.Server.Replies.{Handled, packet_0}
use chat_bot.Server.Registry.{
  last_read_set, set_last_read_message, processing_check_and_registry_user,
}
use chat_bot.Server.Routing.{
  ignored, is_check_or_registry, is_create, routing_requests_from_client, header_checked,
  handle_packets,
}
use chat_bot.Server.Ends.{Ensures-any, Ensures-if}
use chat_bot.Server.Sound.{store_chat-IsSound}
use chat_bot.Server.Messages.{assign-IsRoomy, IsReady}
use chat_bot.Server.Queries.{
  check_login-Keeps, check_log_password-Keeps, register_user-Keeps, find_user_by_part-Keeps,
  processing_get_indexes-Keeps,
}
use chat_bot.Server.Load.{load, LeavesReady, IsReady-le, processing_create_objects-LeavesReady}

last_read_set-IsReady :
    (n message_id address : ℕ) (account : Account) (chat : Chat) (s : Server)
    → IsReady n s
    → find address s.chat_heap ≡ some chat
    → IsReady n (last_read_set account message_id address chat s)
unfolding last_read_set store_chat set_last_read_message_id
last_read_set-IsReady n message_id address account chat s (sound, roomy) there =
    let here = sound.consistent address chat there in
    (
      store_chat-IsSound address (set_last_read_message_id (user_of account) message_id chat) s
          sound
          (record {
            sorted = here.sorted;
            ascending = here.ascending;
            listed = here.listed;
            dated = here.dated;
            known = here.known;
          }),
      assign-IsRoomy n address (set_last_read_message_id (user_of account) message_id chat)
          s.chat_heap (roomy address chat there) roomy,
    )

set_last_read_message-LeavesReady :
    (n : ℕ) (packets : List PacketDto) (s : Server)
    → IsReady n s
    → LeavesReady n (set_last_read_message packets s)
unfolding set_last_read_message get_chat_by_id lock_chat
set_last_read_message-LeavesReady n packets s ready = Ensures-any _ (packet_0 packets) _ (λ packet.
    Ensures-any _ (as_message packet.struct_dto_ptr) _ (λ dto.
      elim (Option-cases (find_user_by_login dto.sender_login s.system)) [
        | inl unknown ↦ rw unknown ready
        | inr (account, known) ↦ elim (Option-cases (find dto.chat_id s.system.chat_id_chat_map)) [
          | inl missing ↦ rw (known, missing) ready
          | inr (address, found) ↦
              let (chat, there) = ready.0.alive dto.chat_id address found in
              rw (known, found, there)
                (last_read_set-IsReady n dto.message_id address account chat s ready there)
        ]
      ]))

processing_check_and_registry_user-LeavesReady :
    (n request_type : ℕ) (packets : List PacketDto) (s : Server)
    → IsReady n s
    → LeavesReady n (processing_check_and_registry_user request_type packets s)
unfolding processing_check_and_registry_user
processing_check_and_registry_user-LeavesReady n t packets s ready =
    let P : Handled × Server → Type 0 = λ r. IsReady n r.1 in
    Ensures-if P (t == RequestType.check_login) _ _ (check_login-Keeps (IsReady n) packets s ready)
      (Ensures-if P (t == RequestType.check_log_password) _ _
        (check_log_password-Keeps (IsReady n) packets s ready)
        (Ensures-if P (t == RequestType.register_user) _ _
          (register_user-Keeps (IsReady n) packets s ready)
          (Ensures-if P (t == RequestType.find_user_by_part) _ _
            (find_user_by_part-Keeps (IsReady n) packets s ready)
            (Ensures-if P (t == RequestType.set_last_read_message) _ _
              (set_last_read_message-LeavesReady n packets s ready) tt))))

ignored-LeavesReady :
    (n : ℕ) (m : Outcome (Handled × Server)) → LeavesReady n m → LeavesReady n (ignored m)
ignored-LeavesReady n (ok (handled, s)) h = h
ignored-LeavesReady n (throw e) h = tt
ignored-LeavesReady n fault h = tt

routing_requests_from_client-LeavesReady :
    (n : ℕ) (packets : List PacketDto) (s : Server)
    → load packets + n < 2 ^ 64 - 1
    → IsReady (load packets + n) s
    → LeavesReady n (routing_requests_from_client packets s)
unfolding routing_requests_from_client
routing_requests_from_client-LeavesReady n packets s small ready =
    let P : Handled × Server → Type 0 = λ r. IsReady n r.1 in
    let less = IsReady-le (load packets + n) n s (omega arith) ready in
    Ensures-any _ (packet_0 packets) _ (λ packet.
      let t = packet.request_type in
      Ensures-if P (is_check_or_registry t) _ _
        (ignored-LeavesReady n _
          (processing_check_and_registry_user-LeavesReady n t packets s less))
        (Ensures-if P (is_create t) _ _
          (processing_create_objects-LeavesReady n t packets s small ready)
          (Ensures-if P (t == RequestType.get_users_data) _ _
            (ignored-LeavesReady n _ (processing_get_indexes-Keeps (IsReady n) packets s less))
            less)))

header_checked-LeavesReady :
    (n : ℕ) (header : UserLoginPasswordDto) (packets : List PacketDto) (s : Server)
    → load packets + n < 2 ^ 64 - 1
    → IsReady (load packets + n) s
    → LeavesReady n (header_checked header packets s)
unfolding header_checked
header_checked-LeavesReady n header packets s small ready =
    let P : Handled × Server → Type 0 = λ r. IsReady n r.1 in
    Ensures-if P (not (same_text header.passwordhash user_heder)) _ _ tt
      (Ensures-if P (length header.login == 0) _ _ tt (behind packets small ready))
  where
    behind :
        (packets : List PacketDto)
        → load packets + n < 2 ^ 64 - 1
        → IsReady (load packets + n) s
        → LeavesReady n (elim packets [
          | [] ↦ throw empty_packet
          | p ∷ ps ↦ routing_requests_from_client (p ∷ ps) s
        ])
    behind [] small ready = tt
    behind (p ∷ ps) small ready = routing_requests_from_client-LeavesReady n (p ∷ ps) s small ready

-- A list of packets whose handling returns leaves the server sound, and ready for n messages more,
-- where it was ready for those of the packets besides.
pub handle_packets-LeavesReady :
    (n : ℕ) (packets : List PacketDto) (s : Server)
    → load packets + n < 2 ^ 64 - 1
    → IsReady (load packets + n) s
    → LeavesReady n (handle_packets packets s)
unfolding handle_packets load
handle_packets-LeavesReady n [] s small ready = tt
handle_packets-LeavesReady n (first ∷ packets) s small ready =
    let P : Handled × Server → Type 0 = λ r. IsReady n r.1 in
    Ensures-if P (not (first.struct_dto_class_type == ClassType.user_login_password)) _ _ tt (
      Ensures-any _ (as_user_login_password first.struct_dto_ptr) _ (λ header.
        header_checked-LeavesReady n header packets s (omega (arith, small))
          (IsReady-le (load (first ∷ packets) + n) (load packets + n) s (omega arith) ready)))
