-- ===== src/Server/Served.antt =====
-- A request to add a message to Shark_2_0_CLI/src/server/server_session.cpp is always answered.
use chat_bot.Base.{
  ℕ, ◌≡◌, refl, ◌∙◌, inl, inr, true, some, List, [], ◌∷◌, arith, ◌==◌, if◌then◌else◌, Bool-cases,
}
use chat_bot.Wire.ClassType
use chat_bot.Wire.Dto.{MessageDto}
use chat_bot.Wire.Reader.{Bytes}
use chat_bot.Server.{Server}
use chat_bot.Server.RequestType
use chat_bot.Server.Dto.{StructDto, PacketDto, as_message}
use chat_bot.Server.Fill.{packet_of}
use chat_bot.Server.Create.{create_new_message_srv}
use chat_bot.Server.Replies.{packet_0, responce_packet, to_string}
use chat_bot.Server.Objects.{create_message, processing_create_objects}
use chat_bot.Server.Routing.{
  served, round_of, is_check_or_registry, is_create, routing_requests_from_client,
  listening_clients,
}
use chat_bot.Server.Ends.{Returns-ok}
use chat_bot.Server.Messages.{IsReady, create_new_message_srv-IsReady}
use chat_bot.Server.Answers.{header_of, listening_clients-header}

-- What is sent: nothing where no message was created, else its id as a text.
abbrev pub create_message_reply : ℕ → List PacketDto
create_message_reply id =
    if id == 0 then [] else responce_packet RequestType.create_message true 0 (to_string id) ∷ []

-- A sound server whose chats have ids left answers each request to add a message, whether the
-- message is created or not, and is as sound afterwards.
pub listening_clients-create_message :
    (t b : ℕ) (login : Bytes) (dto : MessageDto) (packets : List PacketDto) (s : Server)
    → IsReady 1 s
    → (id : ℕ) × (after : Server) × (listening_clients
          (header_of t b login
            ∷ packet_of RequestType.create_message ClassType.message (StructDto.message dto)
            ∷ packets)
          s
        ≡ served (record { answer = true; sent = some (create_message_reply id) }) after)
      × IsReady 0 after
unfolding routing_requests_from_client packet_0 packet_of is_check_or_registry is_create
    processing_create_objects create_message as_message round_of
listening_clients-create_message t b login dto packets s ready =
    let p = packet_of RequestType.create_message ClassType.message (StructDto.message dto) in
    let ((id, after), created, left) =
      Returns-ok (λ r. IsReady 0 r.1) (create_new_message_srv dto s)
        (create_new_message_srv-IsReady 0 dto s (omega arith) ready) in
    (
      id,
      after,
      listening_clients-header t b login p packets s
          ∙ rw created (elim (Bool-cases (id == 0)) [
            | inl zero ↦ rw zero refl
            | inr counted ↦ rw counted refl
          ]),
      left,
    )
