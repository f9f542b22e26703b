-- ===== src/Server/Routing.antt =====
-- processingGetIndexes, routingRequestsFromClient and listeningClients of Shark_2_0_CLI/src/server/server_session.cpp.
use chat_bot.Base.{
  ℕ, Bool, true, false, not, ◌||◌, Option, none, some, List, [], ◌∷◌, ◌==◌, if◌then◌else◌, length,
}
use chat_bot.Wire.Reader.{
  Outcome, ok, throw, fault, empty_packet, header_wrong_type, header_wrong_data,
}
use chat_bot.Wire.ClassType
use chat_bot.Wire.Dto.{UserLoginPasswordDto}
use chat_bot.Text.Utf8.{same_text}
use chat_bot.System.{find_user_by_login}
use chat_bot.Request.{user_heder}
use chat_bot.Server.{Server, ◌>>=◌}
use chat_bot.Server.RequestType
use chat_bot.Server.Dto.{StructDto, PacketDto, as_user_login, as_user_login_password}
use chat_bot.Server.Fill.{packet_of, fill_for_send_user_dto}
use chat_bot.Server.Replies.{Handled, Handler, reply, refuse, packet_0}
use chat_bot.Server.Registry.{processing_check_and_registry_user}
use chat_bot.Server.Objects.{processing_create_objects}

-- The loop over the packets; `none` is an exception that its caller catches.
unfoldable pub users_data : List PacketDto → Server → Outcome (Option (List PacketDto))
users_data [] s = ok (some [])
users_data (p ∷ ps) s =
    if not (p.request_type == RequestType.get_users_data)
    then ok none
    else as_user_login p.struct_dto_ptr >>= λ dto. elim (find_user_by_login dto.login s.system) [
      | none ↦ ok none
      | some account ↦ fill_for_send_user_dto account.login false s >>= λ user.
          users_data ps s >>= λ later. ok (elim later [
            | none ↦ none
            | some list ↦
                some
                  (packet_of RequestType.get_users_data ClassType.user (StructDto.user user) ∷ list)
          ])
    ]

unfoldable pub processing_get_indexes : List PacketDto → Handler
processing_get_indexes packets s =
    users_data packets s >>= λ filled. elim filled [ none ↦ refuse s | some list ↦ reply list s ]

-- What a handler answers where its caller does not look at the answer.
abbrev pub ignored : Outcome (Handled × Server) → Outcome (Handled × Server)
ignored (ok (handled, s)) = ok (record handled { answer = true }, s)
ignored (throw e) = throw e
ignored fault = fault

-- The groups of the switch of routingRequestsFromClient.
unfoldable pub is_check_or_registry : ℕ → Bool
is_check_or_registry t =
    t == RequestType.check_login
    || t == RequestType.check_log_password
    || t == RequestType.register_user
    || t == RequestType.find_user_by_part
    || t == RequestType.set_last_read_message
    || t == RequestType.find_user_by_login

unfoldable pub is_create : ℕ → Bool
is_create t =
    t == RequestType.create_user || t == RequestType.create_chat || t == RequestType.create_message

-- The answer is false only where an object was to be created.
unfoldable pub routing_requests_from_client : List PacketDto → Handler
routing_requests_from_client packets s = packet_0 packets >>= λ packet.
    let t = packet.request_type in
    if is_check_or_registry t
    then ignored (processing_check_and_registry_user t packets s)
    else if is_create t
    then processing_create_objects t packets s
    else if t == RequestType.get_users_data
    then ignored (processing_get_indexes packets s)
    else ok (record { answer = true; sent = none }, s)

unfoldable pub header_checked : UserLoginPasswordDto → List PacketDto → Handler
header_checked header packets s =
    if not (same_text header.passwordhash user_heder)
    then throw header_wrong_type
    else if length header.login == 0
    then throw header_wrong_data
    else elim packets [ [] ↦ throw empty_packet | p ∷ ps ↦ routing_requests_from_client (p ∷ ps) s ]

-- The part of listeningClients behind deSerializePacketList, on the packets received.
unfoldable pub handle_packets : List PacketDto → Handler
handle_packets [] s = throw empty_packet
handle_packets (first ∷ packets) s =
    if not (first.struct_dto_class_type == ClassType.user_login_password)
    then throw header_wrong_type
    else as_user_login_password first.struct_dto_ptr >>= λ header. header_checked header packets s

-- How a round of listeningClients ends: the connection is kept, closed by the exceptions that it
-- catches, or the exception leaves it, and with it the loop of main.
pub data Round : Type 0 where
  served : Handled → Server → Round
  disconnected : Server → Round
  terminated : Round

unfoldable pub round_of : Server → Outcome (Handled × Server) → Round
round_of s (ok (handled, after)) = served handled after
round_of s (throw header_wrong_type) = disconnected s
round_of s (throw header_wrong_data) = disconnected s
round_of s (throw _) = terminated
round_of s fault = terminated

unfoldable pub listening_clients : List PacketDto → Server → Round
listening_clients packets s = round_of s (handle_packets packets s)
