-- ===== src/Server/Fill.antt =====
-- The functions of Shark_2_0_CLI/src/server/server_session.cpp that fill structures from the state
-- of the server. An unordered set is sent in the order in which the model keeps it.
use chat_bot.Base.{ℕ, Bool, true, Option, none, some, List, [], ◌∷◌, ◌++◌, map, if◌then◌else◌}
use chat_bot.Base.Maps.{find}
use chat_bot.Wire.Reader.{Bytes, Outcome, ok, throw, fault, user_not_found}
use chat_bot.Wire.ClassType
use chat_bot.Wire.Dto.{MessageDto, MessageChatDto, ParticipantsDto, ChatDto}
use chat_bot.Chat.{Chat, get_last_read_message_id}
use chat_bot.Chat.Parts.{Message, Participant, bytes_key, nat_key}
use chat_bot.System.{Account, find_user_by_login}
use chat_bot.Server.{Server, ◌>>=◌, deref, user_of, lock_user, lock_chat}
use chat_bot.Server.RequestType
use chat_bot.Server.Dto.{UserDto, StructDto, PacketDto}

-- A packet of a reply. The server, too, sends it as RequestDirection::ClientToSrv.
unfoldable pub packet_of : ℕ → ℕ → StructDto → PacketDto
packet_of request_type class_type dto = record {
  request_type = request_type;
  struct_dto_class_type = class_type;
  req_direction = 1;
  struct_dto_ptr = some dto;
}

-- "-1", which stands for a password that is not sent.
abbrev pub no_password : Bytes
no_password = 45 ∷ 49 ∷ []

unfoldable pub user_dto : Account → Bool → UserDto
user_dto account login_user = record {
  login = account.login;
  user_name = account.user_name;
  email = account.email;
  phone = account.phone;
  passwordhash = if login_user then account.password_hash else no_password;
}

unfoldable pub fill_for_send_user_dto : Bytes → Bool → Server → Outcome UserDto
fill_for_send_user_dto user_login login_user s = elim (find_user_by_login user_login s.system) [
  | none ↦ throw user_not_found
  | some account ↦ ok (user_dto account login_user)
]

unfoldable pub deleted_message_ids : Bytes → Chat → List ℕ
deleted_message_ids login chat = elim (find login chat.deleted_messages_map) [
  | none ↦ []
  | some ids ↦ ids
]

unfoldable pub participant_dto : Participant → Account → Chat → ParticipantsDto
participant_dto participant account chat = record {
  login = account.login;
  last_read_message = get_last_read_message_id (user_of account) chat;
  deleted_message_ids = deleted_message_ids account.login chat;
  deleted_from_chat = participant.deleted_from_chat;
}

-- The loop over the participants; `none` is UserNotFoundException, which its caller catches.
unfoldable pub participant_dtos : Chat → List Participant → Server → Option (List ParticipantsDto)
participant_dtos chat [] s = some []
participant_dtos chat (p ∷ ps) s =
    let later = participant_dtos chat ps s in
    elim (lock_user p.user s) [
      | none ↦ none
      | some account ↦ elim later [
        | none ↦ none
        | some dtos ↦ some (participant_dto p account chat ∷ dtos)
      ]
    ]

unfoldable pub fill_for_send_one_chat_dto : Chat → Account → Server → Option ChatDto
fill_for_send_one_chat_dto chat account s = elim (participant_dtos chat chat.participants s) [
  | none ↦ none
  | some dtos ↦
      some (record { chat_id = chat.chat_id; sender_login = account.login; participants = dtos })
]

-- The loop over the list of chats, which skips what is gone and what is not filled.
unfoldable pub chat_dtos : List ℕ → Account → Server → List ChatDto
chat_dtos [] account s = []
chat_dtos (address ∷ addresses) account s =
    let later = chat_dtos addresses account s in
    elim (lock_chat address s) [
      | none ↦ later
      | some chat ↦ elim (fill_for_send_one_chat_dto chat account s) [
        | none ↦ later
        | some dto ↦ dto ∷ later
      ]
    ]

-- user->getUserChatList()->getChatFromList()
unfoldable pub chat_list_of : Account → Server → Outcome (List ℕ)
chat_list_of account s = deref (find account.address s.system.chat_lists)

unfoldable pub fill_for_send_all_chat_dto : Account → Server → Outcome (List ChatDto)
fill_for_send_all_chat_dto account s =
    chat_list_of account s >>= λ addresses. ok (chat_dtos addresses account s)

-- The login of a sender who is alive, or the empty text.
unfoldable pub sender_login : Message → Server → Bytes
sender_login message s = elim (lock_user message.sender s) [ none ↦ [] | some a ↦ a.login ]

-- front() of the contents, which are texts.
unfoldable pub front : List Bytes → Outcome Bytes
front [] = fault
front (text ∷ texts) = ok text

-- Of a message with several contents the first is sent.
unfoldable pub fill_for_send_one_message_dto : Message → ℕ → Server → Outcome MessageDto
fill_for_send_one_message_dto message chat_id s = front message.content >>= λ text. ok (record {
  chat_id = chat_id;
  message_id = message.message_id;
  sender_login = sender_login message s;
  message_content = record { message_content_type = 0; payload = text } ∷ [];
  time_stamp = message.time_stamp;
})

-- The loop over the messages of a chat.
unfoldable pub message_dtos : List Message → ℕ → Server → Outcome (List MessageDto)
message_dtos [] chat_id s = ok []
message_dtos (m ∷ ms) chat_id s = fill_for_send_one_message_dto m chat_id s >>= λ dto.
    message_dtos ms chat_id s >>= λ dtos. ok (dto ∷ dtos)

unfoldable pub fill_for_send_chat_message_dto : Chat → Server → Outcome MessageChatDto
fill_for_send_chat_message_dto chat s = message_dtos chat.messages chat.chat_id s >>= λ dtos.
    ok (record { chat_id = chat.chat_id; messages = dtos })

-- The loop over the list of chats; `none` is ChatNotFoundException, which its caller catches.
unfoldable pub message_chat_dtos : List ℕ → Server → Outcome (Option (List MessageChatDto))
message_chat_dtos [] s = ok (some [])
message_chat_dtos (address ∷ addresses) s = elim (lock_chat address s) [
  | none ↦ ok none
  | some chat ↦ fill_for_send_chat_message_dto chat s >>= λ dto.
      message_chat_dtos addresses s >>= λ later.
      ok (elim later [ none ↦ none | some dtos ↦ some (dto ∷ dtos) ])
]

unfoldable pub fill_for_send_all_message_dto :
    Account → Server → Outcome (Option (List MessageChatDto))
fill_for_send_all_message_dto account s =
    chat_list_of account s >>= λ addresses. message_chat_dtos addresses s

-- The packets of a user, of the user's chats and of their messages. A null user is dereferenced.
unfoldable pub register_on_device_data : Option Account → Server → Outcome (Option (List PacketDto))
register_on_device_data pointer s = deref pointer >>= λ account.
    fill_for_send_user_dto account.login true s >>= λ dto.
    fill_for_send_all_chat_dto account s >>= λ chats.
    fill_for_send_all_message_dto account s >>= λ messages. ok (elim messages [
      | none ↦ none
      | some dtos ↦ some (
          packet_of RequestType.register_user ClassType.user (StructDto.user dto)
          ∷ (map (λ c. packet_of RequestType.register_user ClassType.chat (StructDto.chat c)) chats
              ++ map
                  (λ m.
                    packet_of RequestType.register_user ClassType.message_chat
                      (StructDto.message_chat m))
                  dtos))
    ])
