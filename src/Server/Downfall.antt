-- ===== src/Server/Downfall.antt =====
-- Two requests for chats, one behind the other, to Shark_2_0_CLI/src/server/server_session.cpp.
use chat_bot.Base.{ℕ, ◌+◌, ◌≡◌, refl, ap, ◌∙◌, true, false, none, some, List, [], ◌∷◌, arith, ◌==◌}
use chat_bot.Base.Maps.{find}
use chat_bot.Wire.ClassType
use chat_bot.Wire.Dto.{ChatDto}
use chat_bot.Wire.Reader.{Bytes}
use chat_bot.Chat.Parts.{nat_key}
use chat_bot.System.{next_server_id, get_chat_by_id}
use chat_bot.Server.{Server}
use chat_bot.Server.RequestType
use chat_bot.Server.Dto.{StructDto, PacketDto, as_chat}
use chat_bot.Server.Fill.{packet_of}
use chat_bot.Server.Create.{create_new_chat_srv}
use chat_bot.Server.Replies.{packet_0}
use chat_bot.Server.Objects.{create_chat, processing_create_objects}
use chat_bot.Server.Routing.{
  served, terminated, round_of, is_check_or_registry, is_create, routing_requests_from_client,
  listening_clients,
}
use chat_bot.Server.Ends.{Ensures-ok, Returns-Ensures}
use chat_bot.Server.Messages.{IsReady}
use chat_bot.Server.Chats.{create_new_chat_srv-IsReady}
use chat_bot.Server.Logins.{HasSameLogins, create_new_chat_srv-KeepsLogins}
use chat_bot.Server.Answers.{header_of, listening_clients-header}
use chat_bot.Server.Leftover.{all_known, create_new_chat_srv-leftover}
use chat_bot.Server.Shadowed.{listening_clients-shadowed}

-- The packets of a request for a chat.
abbrev pub chat_request : ℕ → ℕ → Bytes → ChatDto → List PacketDto → List PacketDto
chat_request t b login dto packets =
    header_of t b login
    ∷ packet_of RequestType.create_chat ClassType.chat (StructDto.chat dto)
    ∷ packets

-- A sound server with no free id answers a request for a chat that has a participant without a user
-- with an empty list, and then the next request for a chat whose participants are all known ends
-- the server.
pub listening_clients-downfall :
    (t b u c : ℕ) (login other : Bytes) (bad good : ChatDto) (packets more : List PacketDto)
    (s : Server)
    → IsReady 0 s
    → s.system.free_chat_server_id_set ≡ []
    → find (next_server_id s.system.chat_id_chat_map) s.system.chat_id_chat_map ≡ none
    → (next_server_id s.system.chat_id_chat_map == 0) ≡ false
    → all_known bad.participants s.system.login_user_map ≡ false
    → all_known good.participants s.system.login_user_map ≡ true
    → (after : Server) × (listening_clients (chat_request t b login bad packets) s
        ≡ served (record { answer = true; sent = some [] }) after)
      × (listening_clients (chat_request u c other good more) after ≡ terminated)
unfolding routing_requests_from_client packet_0 packet_of is_check_or_registry is_create
    processing_create_objects create_chat as_chat round_of get_chat_by_id
listening_clients-downfall t b u c login other bad good packets more s (sound, roomy) none_free
      fresh counted unknown known =
    let address = s.next_address in
    let s' = record s { next_address = address + 1 } in
    let ready' : IsReady 0 s' = (
      record {
        consistent = sound.consistent;
        alive = sound.alive;
        listed = sound.listed;
        server = sound.server;
      },
      roomy,
    ) in
    let (after, created, found, free, next) =
      create_new_chat_srv-leftover address bad s' sound.server none_free fresh unknown in
    let ready : IsReady 0 after =
      Ensures-ok (λ r. IsReady 0 r.1) (create_new_chat_srv address bad s') (0, after)
        (Returns-Ensures (λ r. IsReady 0 r.1) (create_new_chat_srv address bad s')
          (create_new_chat_srv-IsReady 0 address bad s' (omega arith) ready'))
        created in
    let same : HasSameLogins s.system after.system =
      Ensures-ok (λ r. HasSameLogins s.system r.1.system) (create_new_chat_srv address bad s')
        (0, after) (create_new_chat_srv-KeepsLogins address bad s') created in
    (
      after,
      listening_clients-header t b login
            (packet_of RequestType.create_chat ClassType.chat (StructDto.chat bad)) packets s
          ∙ rw created refl,
      listening_clients-shadowed u c (next_server_id s.system.chat_id_chat_map) address other []
          good more after ready.0 free found (ap (λ n. address == n) next ∙ ground arith) counted
          (ap (all_known good.participants) same ∙ known),
    )
