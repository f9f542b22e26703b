-- ===== src/Server/Registry.antt =====
-- processingCheckAndRegistryUser of Shark_2_0_CLI/src/server/server_session.cpp.
use chat_bot.Base.{ℕ, true, false, none, some, List, [], ◌∷◌, ◌==◌, if◌then◌else◌}
use chat_bot.Wire.Reader.{Bytes, Outcome, ok, throw, header_wrong_type}
use chat_bot.Wire.ClassType
use chat_bot.Text.Utf8.{same_text}
use chat_bot.Chat.{Chat, set_last_read_message_id}
use chat_bot.System.{Account, find_user_by_login, find_user_by_text_part, get_chat_by_id}
use chat_bot.Server.{Server, ◌>>=◌, deref, user_of, lock_chat, store_chat}
use chat_bot.Server.RequestType
use chat_bot.Server.Dto.{StructDto, PacketDto, as_user_login, as_user_login_password, as_message}
use chat_bot.Server.Fill.{packet_of, fill_for_send_user_dto, register_on_device_data}
use chat_bot.Server.Replies.{Handler, reply, refuse, responce_packet, packet_0}

-- "@"
abbrev nobody : Bytes
nobody = 64 ∷ []

unfoldable pub check_login : List PacketDto → Handler
check_login packets s = packet_0 packets >>= λ packet.
    as_user_login packet.struct_dto_ptr >>= λ dto. elim (find_user_by_login dto.login s.system) [
      | some account ↦ reply (responce_packet RequestType.check_login true 0 dto.login ∷ []) s
      | none ↦ reply (responce_packet RequestType.check_login false 0 nobody ∷ []) s
    ]

unfoldable pub check_log_password : List PacketDto → Handler
check_log_password packets s = packet_0 packets >>= λ packet.
    as_user_login_password packet.struct_dto_ptr >>= λ dto.
    elim (find_user_by_login dto.login s.system) [
      | some account ↦
          reply
            (responce_packet RequestType.check_log_password
                (same_text dto.passwordhash account.password_hash) 0 dto.login
              ∷ [])
            s
      | none ↦ reply (responce_packet RequestType.check_log_password false 0 nobody ∷ []) s
    ]

unfoldable pub register_user : List PacketDto → Handler
register_user packets s = packet_0 packets >>= λ packet.
    as_user_login packet.struct_dto_ptr >>= λ dto.
    register_on_device_data (find_user_by_login dto.login s.system) s >>= λ filled. elim filled [
      | none ↦ refuse s
      | some list ↦ reply list s
    ]

-- The loop over the users found, or over the logins asked for.
unfoldable pub user_packets : ℕ → List Bytes → Server → Outcome (List PacketDto)
user_packets request_type [] s = ok []
user_packets request_type (login ∷ logins) s = fill_for_send_user_dto login false s >>= λ dto.
    user_packets request_type logins s >>= λ packets.
    ok (packet_of request_type ClassType.user (StructDto.user dto) ∷ packets)

unfoldable pub logins_of : List Account → List Bytes
logins_of [] = []
logins_of (account ∷ accounts) = account.login ∷ logins_of accounts

unfoldable pub find_user_by_part : List PacketDto → Handler
find_user_by_part packets s = packet_0 packets >>= λ packet.
    as_user_login packet.struct_dto_ptr >>= λ dto.
    user_packets RequestType.find_user_by_part
      (logins_of (find_user_by_text_part dto.login s.system)) s
    >>= λ found. reply found s

unfoldable pub last_read_set : Account → ℕ → ℕ → Chat → Server → Server
last_read_set account message_id address chat s =
    store_chat address (set_last_read_message_id (user_of account) message_id chat) s

unfoldable pub set_last_read_message : List PacketDto → Handler
set_last_read_message packets s = packet_0 packets >>= λ packet.
    as_message packet.struct_dto_ptr >>= λ dto.
    elim (find_user_by_login dto.sender_login s.system) [
      | none ↦ reply (responce_packet RequestType.set_last_read_message false 0 [] ∷ []) s
      | some account ↦ elim (get_chat_by_id dto.chat_id s.system) [
        | none ↦ reply (responce_packet RequestType.set_last_read_message false 0 [] ∷ []) s
        | some address ↦ deref (lock_chat address s) >>= λ chat.
            reply (responce_packet RequestType.set_last_read_message true 0 [] ∷ [])
              (last_read_set account dto.message_id address chat s)
      ]
    ]

unfoldable pub processing_check_and_registry_user : ℕ → List PacketDto → Handler
processing_check_and_registry_user request_type packets s =
    if request_type == RequestType.check_login
    then check_login packets s
    else if request_type == RequestType.check_log_password
    then check_log_password packets s
    else if request_type == RequestType.register_user
    then register_user packets s
    else if request_type == RequestType.find_user_by_part
    then find_user_by_part packets s
    else if request_type == RequestType.set_last_read_message
    then set_last_read_message packets s
    else throw header_wrong_type
