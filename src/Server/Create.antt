-- ===== src/Server/Create.antt =====
-- The functions of Shark_2_0_CLI/src/server/server_session.cpp that create users, chats and messages.
use chat_bot.Base.{ℕ, ◌+◌, Bool, true, false, if◌then◌else◌, Option, none, some, List, [], ◌∷◌}
use chat_bot.Base.Maps.{insert}
use chat_bot.Wire.Reader.{Outcome, ok, fault}
use chat_bot.Wire.Dto.{MessageContentDto, MessageDto, ParticipantsDto, ChatDto}
use chat_bot.Chat.{Chat, add_participant, stamped, add_message_to_chat}
use chat_bot.Chat.Parts.{Message, nat_key}
use chat_bot.System.{
  Account, ChatSystem, Added, chat_not_found, null_pointer, returned, add_user_to_system,
  find_user_by_login, get_chat_by_id, create_new_chat_id, move_to_free_chat_id_srv,
  add_chat_to_instance,
}
use chat_bot.Server.{Server, ◌>>=◌, deref, user_of, lock_chat, store_chat}
use chat_bot.Server.Dto.{UserDto}

unfoldable pub new_account : ℕ → UserDto → Account
new_account address dto = record {
  address = address;
  login = dto.login;
  user_name = dto.user_name;
  password_hash = dto.passwordhash;
  email = dto.email;
  phone = dto.phone;
}

-- It always answers true, so the answer is left out.
unfoldable pub create_user_srv : UserDto → Server → Server
create_user_srv dto s =
    let account = new_account s.next_address dto in
    record s {
      system =
          add_user_to_system account
            (record s.system { chat_lists = insert s.next_address [] s.system.chat_lists });
      next_address = s.next_address + 1;
    }

-- A chat as std::make_shared<Chat>() makes it. Its id is set before it is read.
unfoldable pub empty_chat : ℕ → Chat
empty_chat chat_id = record {
  chat_id = chat_id;
  participants = [];
  messages = [];
  message_id_map = [];
  next_message_id = 1;
  last_read_message_map = [];
  message_id_to_time_stamp = [];
  deleted_messages_map = [];
}

-- The loop over the participants: the chat, and whether each of them was found.
unfoldable pub add_participants : List ParticipantsDto → ChatSystem → Chat → Bool × Chat
add_participants [] system chat = (true, chat)
add_participants (p ∷ ps) system chat = elim (find_user_by_login p.login system) [
  | none ↦ (false, chat)
  | some account ↦
      add_participants ps system
        (add_participant (user_of account) p.last_read_message p.deleted_from_chat chat)
]

-- What addChatToInstance returns is not looked at. Its exception and the null pointer of a client
-- are no cases of a server, but they are calls that do not return.
unfoldable pub after_added : ℕ → ℕ → Chat → Server → Added → Outcome (ℕ × Server)
after_added id address chat s chat_not_found = fault
after_added id address chat s null_pointer = fault
after_added id address chat s (returned result system) =
    ok (id, store_chat address chat (record s { system = system }))

-- The id, or 0 if a participant was not found, and the server. The chat stands at the address given.
unfoldable pub create_new_chat_srv : ℕ → ChatDto → Server → Outcome (ℕ × Server)
create_new_chat_srv address dto s = deref (create_new_chat_id address s.system) >>= λ (id, system).
    let (found, chat) = add_participants dto.participants system (empty_chat id) in
    if found
    then after_added id address chat s (add_chat_to_instance (some (address, chat)) system)
    else ok (0, store_chat address chat (record s { system = move_to_free_chat_id_srv id system }))

-- createOneMessage of core/system/system_function.cpp, for a sender that is not null.
unfoldable pub create_one_message : MessageContentDto → Account → MessageDto → Message
create_one_message content sender dto = record {
  content = content.payload ∷ [];
  sender = some sender.address;
  time_stamp = dto.time_stamp;
  message_id = 0;
}

unfoldable pub add_to_chat : Message → Account → ℕ → Chat → Server → ℕ × Server
add_to_chat message sender address chat s = (
  (stamped true message chat).message_id,
  store_chat address (add_message_to_chat message (user_of sender) true chat) s,
)

unfoldable pub first_content : List MessageContentDto → Option MessageContentDto
first_content [] = none
first_content (content ∷ contents) = some content

-- The id of the message, or 0 where the chat, the sender or the content is missing. A chat of the
-- map is never null.
unfoldable pub create_new_message_srv : MessageDto → Server → Outcome (ℕ × Server)
create_new_message_srv dto s = elim (get_chat_by_id dto.chat_id s.system) [
  | none ↦ ok (0, s)
  | some address ↦ elim (find_user_by_login dto.sender_login s.system) [
    | none ↦ ok (0, s)
    | some sender ↦ elim (first_content dto.message_content) [
      | none ↦ ok (0, s)
      | some content ↦ deref (lock_chat address s) >>= λ chat.
          ok (add_to_chat (create_one_message content sender dto) sender address chat s)
    ]
  ]
]

-- The results of the messages are not looked at; it always answers true, which is left out.
unfoldable pub create_new_message_chat_srv : ℕ → List MessageDto → Server → Outcome Server
create_new_message_chat_srv chat_id [] s = ok s
create_new_message_chat_srv chat_id (dto ∷ dtos) s =
    create_new_message_srv (record dto { chat_id = chat_id }) s >>= λ (id, after).
    create_new_message_chat_srv chat_id dtos after
