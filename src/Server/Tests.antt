-- ===== src/Server/Tests.antt =====
-- The theorems on the server at concrete servers and requests.
use chat_bot.Base.{ℕ, ◌≡◌, refl, some, List, [], ◌∷◌, ◌++◌, arith, if◌then◌else◌}
use chat_bot.Base.Int.{pos}
use chat_bot.Base.Maps.{find, insert}
use chat_bot.Wire.ClassType
use chat_bot.Wire.Dto.{MessageDto}
use chat_bot.Wire.Reader.{ok}
use chat_bot.Text.Utf8.{same_text}
use chat_bot.Chat.{Chat, create_new_message_id, get_last_read_message_id}
use chat_bot.Chat.Parts.{bytes_key, nat_key}
use chat_bot.System.{find_user_by_login, get_chat_by_id, next_server_id, add_user_to_system}
use chat_bot.Server.{Server, user_of, user_at, lock_chat}
use chat_bot.Server.RequestType
use chat_bot.Server.Dto.{
  UserDto, StructDto, PacketDto, as_user_login, as_user, as_user_login_password,
}
use chat_bot.Server.Fill.{
  packet_of, user_dto, fill_for_send_user_dto, fill_for_send_chat_message_dto,
}
use chat_bot.Server.Create.{create_new_message_srv, create_user_srv, new_account}
use chat_bot.Server.Replies.{Handled, packet_0, responce_packet}
use chat_bot.Server.Objects.{create_user, processing_create_objects}
use chat_bot.Server.Routing.{
  served, terminated, listening_clients, handle_packets, routing_requests_from_client,
  is_check_or_registry, is_create, processing_get_indexes, users_data, header_checked,
}
use chat_bot.Server.Sound.{IsSound}
use chat_bot.Server.Messages.{IsReady}
use chat_bot.Server.Load.{load, struct_load}
use chat_bot.Server.Steps.{
  started, started-IsReady, IsServed, here, answered, IsServed-IsReady, IsServed-IsSound,
}
use chat_bot.Server.Directory.{directory}
use chat_bot.Server.Enrolment.{enrolment, enrol_all, handle_packets-directory}
use chat_bot.Server.Answers.{
  header_of, authenticates, answer_text, listening_clients-check_log_password,
  listening_clients-terminated,
}
use chat_bot.Server.Downfall.{chat_request, listening_clients-downfall}
use chat_bot.Server.Leftover.{all_known}
use chat_bot.Server.Shadowed.{listening_clients-shadowed}
use chat_bot.Server.Passwords.{routing_requests_from_client-HidesAll}
use chat_bot.Server.Passwords.Users.{HidesAll}
use chat_bot.Server.Delivery.{create_new_message_srv-delivered}
use chat_bot.Server.Served.{create_message_reply, listening_clients-create_message}
use chat_bot.Server.Examples.{
  header, packet, create_anna, message_of, chat_of, create_notes, anna_account, with_anna, notes,
  with_notes, with_leftover, answer_of, created_anna, created_notes, anna_step, notes_step,
  leftover_step,
}

-- The servers are reached from the empty one.
anna-IsServed : IsServed started 0 with_anna
unfolding load struct_load packet_of
anna-IsServed = answered create_anna created_anna with_anna here anna_step

notes-IsServed : IsServed started 1 with_notes
unfolding load struct_load packet_of
notes-IsServed = answered (create_notes 97) created_notes with_notes anna-IsServed notes_step

leftover-IsServed : IsServed started 1 with_leftover
unfolding load struct_load packet_of
leftover-IsServed =
    answered (create_notes 98) (answer_of []) with_leftover anna-IsServed leftover_step

IsServed-IsSound_example : IsSound with_notes
IsServed-IsSound_example = IsServed-IsSound 1 with_notes notes-IsServed (omega arith)

notes-IsReady : IsReady 1 with_notes
notes-IsReady =
    IsServed-IsReady 1 1 started with_notes notes-IsServed (omega arith) (started-IsReady 2)

-- A second user with the login of anna changes nothing.
abbrev usurper : UserDto
usurper = record { login = 97 ∷ []; passwordhash = 50 ∷ []; user_name = []; email = []; phone = [] }

abbrev create_usurper : List PacketDto
create_usurper = packet RequestType.create_user ClassType.user (StructDto.user usurper) ∷ []

abbrev with_usurper : Server
with_usurper = record with_anna {
  system = record with_anna.system {
    users =
        anna_account
        ∷ record {
          address = 2;
          login = 97 ∷ [];
          user_name = [];
          password_hash = 50 ∷ [];
          email = [];
          phone = [];
        }
        ∷ [];
    chat_lists = (2, []) ∷ (1, []) ∷ [];
  };
  next_address = 3;
}

usurper_handled :
    handle_packets (header ∷ create_usurper) with_anna ≡ ok (created_anna, with_usurper)
unfolding handle_packets header_checked packet_of as_user_login_password same_text
    routing_requests_from_client packet_0 is_check_or_registry is_create processing_create_objects
    create_user as_user responce_packet create_user_srv new_account add_user_to_system find insert
usurper_handled = refl

handle_packets-directory_example :
    directory with_usurper (97 ∷ [])
    ≡ enrol_all (enrolment create_usurper) (directory with_anna) (97 ∷ [])
handle_packets-directory_example =
    handle_packets-directory header create_usurper with_anna with_usurper created_anna
      usurper_handled (97 ∷ [])

abbrev get_anna : PacketDto
get_anna =
    packet RequestType.get_users_data ClassType.user_login
      (StructDto.user_login (record { login = 97 ∷ [] }))

abbrev data_of_anna : Handled
data_of_anna = answer_of (
    packet RequestType.get_users_data ClassType.user (
      StructDto.user (record {
        login = 97 ∷ [];
        passwordhash = 45 ∷ 49 ∷ [];
        user_name = 65 ∷ [];
        email = [];
        phone = [];
      }))
    ∷ [])

data_sent : routing_requests_from_client (get_anna ∷ []) with_anna ≡ ok (data_of_anna, with_anna)
unfolding routing_requests_from_client packet_0 packet_of is_check_or_registry is_create
    processing_get_indexes users_data as_user_login find_user_by_login find fill_for_send_user_dto
    user_dto same_text
data_sent = refl

routing_requests_from_client-HidesAll_example :
    HidesAll with_anna get_anna.struct_dto_ptr data_of_anna.sent
routing_requests_from_client-HidesAll_example =
    routing_requests_from_client-HidesAll get_anna [] with_anna with_anna data_of_anna refl
      data_sent

create_new_message_srv-delivered_example :
    (after : Server) × (after_chat : Chat) × (before : List MessageDto) × (later : List MessageDto)
    × (create_new_message_srv (message_of 1 (pos 7) 73) with_notes
        ≡ ok (create_new_message_id notes, after))
    × (lock_chat 2 after ≡ some after_chat)
    × (fill_for_send_chat_message_dto notes with_notes
        ≡ ok (record { chat_id = 1; messages = before ++ later }))
    × (fill_for_send_chat_message_dto after_chat after
        ≡ ok (record {
          chat_id = 1;
          messages =
              before
              ++ record {
                chat_id = 1;
                message_id = create_new_message_id notes;
                sender_login = 97 ∷ [];
                message_content = record { message_content_type = 0; payload = 73 ∷ [] } ∷ [];
                time_stamp = pos 7;
              }
                ∷ later;
        }))
    × (after_chat.participants ≡ notes.participants)
    × (after_chat.deleted_messages_map ≡ [])
    × (get_last_read_message_id (user_of anna_account) after_chat ≡ (
        if same_text (97 ∷ []) (97 ∷ [])
        then create_new_message_id notes
        else get_last_read_message_id (user_of anna_account) notes))
unfolding find_user_by_login find user_at get_chat_by_id lock_chat same_text
create_new_message_srv-delivered_example =
    create_new_message_srv-delivered (message_of 1 (pos 7) 73)
      (record { message_content_type = 0; payload = 73 ∷ [] }) [] anna_account 2 notes with_notes
      (user_of anna_account) refl refl refl refl refl ((72 ∷ [], [], refl), tt)

listening_clients-shadowed_example :
    listening_clients
      (header_of 0 97 []
        ∷ packet_of RequestType.create_chat ClassType.chat (StructDto.chat (chat_of 97))
        ∷ [])
      with_leftover
    ≡ terminated
unfolding find all_known same_text
listening_clients-shadowed_example =
    listening_clients-shadowed 0 97 1 2 [] [] (chat_of 97) [] with_leftover
      (IsServed-IsReady 0 1 started with_leftover leftover-IsServed (omega arith)
        (started-IsReady 1)).0
      refl refl refl refl refl

listening_clients-check_log_password_example :
    listening_clients
      (header_of 0 97 []
        ∷ packet_of RequestType.check_log_password ClassType.user_login_password
            (StructDto.user_login_password (record { login = 97 ∷ []; passwordhash = 49 ∷ [] }))
        ∷ [])
      with_anna
    ≡ served
        (answer_of (
          responce_packet RequestType.check_log_password
            (authenticates (directory with_anna (97 ∷ [])) (49 ∷ []))
            0
            (answer_text (directory with_anna (97 ∷ [])) (97 ∷ []))
          ∷ []))
        with_anna
listening_clients-check_log_password_example =
    listening_clients-check_log_password 0 97 []
      (record { login = 97 ∷ []; passwordhash = 49 ∷ [] }) with_anna

listening_clients-terminated_example :
    (listening_clients
        (header_of 0 97 []
          ∷ packet_of RequestType.register_user ClassType.user_login
              (StructDto.user_login (record { login = 98 ∷ [] }))
          ∷ [])
        with_anna
      ≡ terminated)
    × (listening_clients (header_of 0 97 [] ∷ []) with_anna ≡ terminated)
unfolding directory find_user_by_login find same_text
listening_clients-terminated_example =
    listening_clients-terminated 0 97 [] (record { login = 98 ∷ [] }) with_anna refl

listening_clients-create_message_example :
    (id : ℕ) × (after : Server) × (listening_clients
        (header_of 0 97 []
          ∷ packet_of RequestType.create_message ClassType.message
              (StructDto.message (message_of 1 (pos 7) 73))
          ∷ [])
        with_notes
      ≡ served (answer_of (create_message_reply id)) after)
    × IsReady 0 after
listening_clients-create_message_example =
    listening_clients-create_message 0 97 [] (message_of 1 (pos 7) 73) [] with_notes notes-IsReady

listening_clients-downfall_example :
    (after : Server) × (listening_clients (chat_request 0 97 [] (chat_of 98) []) with_anna
      ≡ served (answer_of []) after)
    × (listening_clients (chat_request 0 97 [] (chat_of 97) []) after ≡ terminated)
unfolding find all_known same_text next_server_id
listening_clients-downfall_example =
    listening_clients-downfall 0 97 0 97 [] [] (chat_of 98) (chat_of 97) [] [] with_anna
      (IsServed-IsReady 0 0 started with_anna anna-IsServed (omega arith) (started-IsReady 0)) refl
      refl refl refl refl
