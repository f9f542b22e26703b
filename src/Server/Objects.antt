-- ===== src/Server/Objects.antt =====
-- processingCreateObjects of Shark_2_0_CLI/src/server/server_session.cpp.
use chat_bot.Base.{ℕ, ◌+◌, true, not, List, [], ◌∷◌, ◌==◌, if◌then◌else◌}
use chat_bot.Wire.Reader.{Outcome, ok, fault}
use chat_bot.Wire.ClassType
use chat_bot.Chat.{Chat}
use chat_bot.Server.{◌>>=◌, deref, lock_chat}
use chat_bot.Server.RequestType
use chat_bot.Server.Dto.{PacketDto, as_user, as_message, as_chat, as_message_chat}
use chat_bot.Server.Create.{
  create_user_srv, create_new_chat_srv, create_new_message_srv, create_new_message_chat_srv,
}
use chat_bot.Server.Replies.{Handler, reply, refuse, responce_packet, to_string, packet_0, packet_1}

-- EmptyPacketException is caught here.
unfoldable pub create_user : List PacketDto → Handler
create_user [] s = refuse s
create_user (packet ∷ packets) s =
    if not (packet.struct_dto_class_type == ClassType.user)
    then refuse s
    else as_user packet.struct_dto_ptr >>= λ dto.
        reply (responce_packet RequestType.create_user true 0 [] ∷ []) (create_user_srv dto s)

-- getMessages().begin()->second->getMessageId()
unfoldable pub first_message_id : Chat → Outcome ℕ
first_message_id chat = elim (chat.messages) [ [] ↦ fault | m ∷ ms ↦ ok m.message_id ]

unfoldable pub create_messages : ℕ → ℕ → List PacketDto → Handler
create_messages id address packets s = packet_1 packets >>= λ packet.
    as_message_chat packet.struct_dto_ptr >>= λ dto.
    create_new_message_chat_srv id dto.messages s >>= λ after.
    deref (lock_chat address after) >>= λ chat. first_message_id chat >>= λ first.
    reply (responce_packet RequestType.create_chat true id (to_string first) ∷ []) after

-- Where the chat is not created, an empty list is sent. The chat stands at a new address.
unfoldable pub create_chat : List PacketDto → Handler
create_chat packets s = packet_0 packets >>= λ packet. as_chat packet.struct_dto_ptr >>= λ dto.
    let address = s.next_address in
    create_new_chat_srv address dto (record s { next_address = address + 1 }) >>= λ (id, after).
    if id == 0 then reply [] after else create_messages id address packets after

-- Where the message is not created, an empty list is sent. The number of the answer is 0.
unfoldable pub create_message : List PacketDto → Handler
create_message packets s = packet_0 packets >>= λ packet.
    as_message packet.struct_dto_ptr >>= λ dto. create_new_message_srv dto s >>= λ (id, after).
    if id == 0
    then reply [] after
    else reply (responce_packet RequestType.create_message true 0 (to_string id) ∷ []) after

unfoldable pub processing_create_objects : ℕ → List PacketDto → Handler
processing_create_objects request_type packets s =
    if request_type == RequestType.create_user
    then create_user packets s
    else if request_type == RequestType.create_chat
    then create_chat packets s
    else if request_type == RequestType.create_message
    then create_message packets s
    else refuse s
