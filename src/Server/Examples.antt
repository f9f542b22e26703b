-- ===== src/Server/Examples.antt =====
-- A server, and requests to it: tests of Shark_2_0_CLI/src/server/server_session.cpp.
use chat_bot.Base.{ℕ, ◌≡◌, refl, true, false, none, some, List, [], ◌∷◌}
use chat_bot.Base.Int.{ℤ, pos}
use chat_bot.Wire.ClassType
use chat_bot.Wire.Dto.{MessageDto, MessageChatDto, ParticipantsDto, ChatDto}
use chat_bot.System.{
  Account, add_user_to_system, create_new_chat_id, find_user_by_login, create_on_server,
  add_chat_to_instance, add_on_server, add_to_participants, next_server_id, register_chat,
  through_int, move_to_free_chat_id_srv, get_chat_by_id,
}
use chat_bot.Chat.{
  Chat, add_participant, set_last_read_message_id, add_message_to_chat, stamped,
  create_new_message_id, set_message_id_map, set_message_id_to_time_stamp,
}
use chat_bot.System.Lists.{add_to_list, contains, max_key}
use chat_bot.Chat.Parts.{has, bytes_key, nat_key, insert_id, insert_message}
use chat_bot.Server.{Server, store_chat, lock_chat}
use chat_bot.Server.RequestType
use chat_bot.Server.Dto.{
  UserDto, StructDto, PacketDto, as_user, as_user_login_password, as_chat, as_message_chat,
}
use chat_bot.Server.Fill.{packet_of}
use chat_bot.Server.Create.{
  new_account, create_user_srv, create_new_chat_srv, add_participants, after_added, empty_chat,
  create_new_message_chat_srv, create_new_message_srv, first_content, add_to_chat,
  create_one_message,
}
use chat_bot.Server.Replies.{Handled, packet_0, packet_1, responce_packet, to_string, digits}
use chat_bot.Server.Objects.{
  create_user, create_chat, processing_create_objects, create_messages, first_message_id,
}
use chat_bot.Text.Utf8.{same_text}
use chat_bot.Base.Maps.{find, insert, assign}
use chat_bot.Server.Answers.{header_of}
use chat_bot.Server.Routing.{
  served, round_of, handle_packets, header_checked, routing_requests_from_client,
  is_check_or_registry, is_create, listening_clients,
}
use chat_bot.Server.Steps.{started}

abbrev pub anna : UserDto
anna = record {
  login = 97 ∷ [];
  passwordhash = 49 ∷ [];
  user_name = 65 ∷ [];
  email = [];
  phone = [];
}

abbrev pub header : PacketDto
header = header_of 0 97 []

abbrev pub packet : ℕ → ℕ → StructDto → PacketDto
packet request_type class_type dto = record {
  request_type = request_type;
  struct_dto_class_type = class_type;
  req_direction = 1;
  struct_dto_ptr = some dto;
}

abbrev pub create_anna : List PacketDto
create_anna = header ∷ packet RequestType.create_user ClassType.user (StructDto.user anna) ∷ []

abbrev pub participant : ℕ → ParticipantsDto
participant letter = record {
  login = letter ∷ [];
  last_read_message = 0;
  deleted_message_ids = [];
  deleted_from_chat = false;
}

abbrev pub message_of : ℕ → ℤ → ℕ → MessageDto
message_of chat_id time_stamp letter = record {
  chat_id = chat_id;
  message_id = 0;
  sender_login = 97 ∷ [];
  message_content = record { message_content_type = 0; payload = letter ∷ [] } ∷ [];
  time_stamp = time_stamp;
}

abbrev pub messages_of : MessageChatDto
messages_of = record { chat_id = 0; messages = message_of 0 (pos 5) 72 ∷ [] }

abbrev pub chat_of : ℕ → ChatDto
chat_of letter = record {
  chat_id = 0;
  sender_login = 97 ∷ [];
  participants = participant letter ∷ [];
}

abbrev pub create_notes : ℕ → List PacketDto
create_notes letter =
    header
    ∷ packet RequestType.create_chat ClassType.chat (StructDto.chat (chat_of letter))
    ∷ packet RequestType.create_chat ClassType.message_chat (StructDto.message_chat messages_of)
    ∷ []

abbrev pub anna_account : Account
anna_account = record {
  address = 1;
  login = 97 ∷ [];
  user_name = 65 ∷ [];
  password_hash = 49 ∷ [];
  email = [];
  phone = [];
}

-- Behind the request to create anna.
abbrev pub with_anna : Server
with_anna = record {
  system = record {
    users = anna_account ∷ [];
    chats = [];
    active_user = none;
    login_user_map = (97 ∷ [], anna_account) ∷ [];
    chat_id_chat_map = [];
    next_chat_id_client = 1;
    is_server_status = true;
    free_chat_server_id_set = [];
    chat_lists = (1, []) ∷ [];
  };
  chat_heap = [];
  next_address = 2;
}

abbrev pub notes : Chat
notes = record {
  chat_id = 1;
  participants = record { user = some 1; deleted_from_chat = false } ∷ [];
  messages =
      record { content = (72 ∷ []) ∷ []; sender = some 1; time_stamp = pos 5; message_id = 1 } ∷ [];
  message_id_map = 1 ∷ [];
  next_message_id = 1;
  last_read_message_map = (97 ∷ [], 1) ∷ [];
  message_id_to_time_stamp = (1, pos 5) ∷ [];
  deleted_messages_map = [];
}

-- Behind a request of anna to create a chat with herself.
abbrev pub with_notes : Server
with_notes = record {
  system = record with_anna.system {
    chats = 2 ∷ [];
    chat_id_chat_map = (1, 2) ∷ [];
    chat_lists = (1, 2 ∷ []) ∷ [];
  };
  chat_heap = (2, notes) ∷ [];
  next_address = 3;
}

-- Behind a request of anna to create a chat with a user who is not there.
abbrev pub with_leftover : Server
with_leftover = record {
  system = record with_anna.system {
    chat_id_chat_map = (1, 2) ∷ [];
    free_chat_server_id_set = 1 ∷ [];
  };
  chat_heap =
      (
        2,
        record {
          chat_id = 1;
          participants = [];
          messages = [];
          message_id_map = [];
          next_message_id = 1;
          last_read_message_map = [];
          message_id_to_time_stamp = [];
          deleted_messages_map = [];
        },
      )
      ∷ [];
  next_address = 3;
}

abbrev pub answer_of : List PacketDto → Handled
answer_of packets = record { answer = true; sent = some packets }

abbrev pub created_anna : Handled
created_anna = answer_of (responce_packet RequestType.create_user true 0 [] ∷ [])

abbrev pub created_notes : Handled
created_notes = answer_of (responce_packet RequestType.create_chat true 1 (49 ∷ []) ∷ [])

pub anna_step : listening_clients create_anna started ≡ served created_anna with_anna
unfolding listening_clients round_of handle_packets header_checked packet_of as_user_login_password
    same_text routing_requests_from_client packet_0 is_check_or_registry is_create
    processing_create_objects create_user as_user responce_packet create_user_srv new_account
    add_user_to_system started find insert
anna_step = refl

pub notes_step : listening_clients (create_notes 97) with_anna ≡ served created_notes with_notes
unfolding listening_clients round_of handle_packets header_checked packet_of as_user_login_password
    same_text routing_requests_from_client packet_0 packet_1 is_check_or_registry is_create
    processing_create_objects responce_packet create_chat as_chat create_new_chat_srv
    create_new_chat_id add_participants find_user_by_login find create_on_server after_added
    add_chat_to_instance add_on_server add_to_participants add_participant set_last_read_message_id
    empty_chat next_server_id register_chat insert assign store_chat add_to_list contains max_key
    through_int move_to_free_chat_id_srv insert_id create_messages as_message_chat
    create_new_message_chat_srv create_new_message_srv get_chat_by_id first_content lock_chat
    add_to_chat add_message_to_chat stamped create_new_message_id create_one_message insert_message
    set_message_id_map set_message_id_to_time_stamp first_message_id to_string digits has
notes_step = refl

pub leftover_step :
    listening_clients (create_notes 98) with_anna ≡ served (answer_of []) with_leftover
unfolding listening_clients round_of handle_packets header_checked packet_of as_user_login_password
    same_text routing_requests_from_client packet_0 packet_1 is_check_or_registry is_create
    processing_create_objects responce_packet create_chat as_chat create_new_chat_srv
    create_new_chat_id add_participants find_user_by_login find create_on_server after_added
    add_chat_to_instance add_on_server add_to_participants add_participant set_last_read_message_id
    empty_chat next_server_id register_chat insert assign store_chat add_to_list contains max_key
    through_int move_to_free_chat_id_srv insert_id
leftover_step = refl
