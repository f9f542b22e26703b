-- ===== src/Wire/Decode/Conversation.antt =====
-- The cases chatDTO, messageChatDTO and messageDTO of deSerializeFromBinary. Most of their reads
-- check no size.
use chat_bot.Base.{ℕ}
use chat_bot.Base.Int.{to_i64}
use chat_bot.Wire.Host.{Host}
use chat_bot.Wire.Reader.{
  Reader, pure, ◌>>=◌, ◌>>◌, next, need, next_bool, read_u32, read_u64, read_string_unchecked,
  read_times,
}
use chat_bot.Wire.Dto.{MessageContentDto, MessageDto, MessageChatDto, ParticipantsDto, ChatDto}

module _ (host : Host) where
  unfoldable pub read_deleted_id : Reader ℕ
  read_deleted_id = do need 8; read_u64 host

  unfoldable pub read_participant : Reader ParticipantsDto
  read_participant = do
    login ← read_string_unchecked host
    last ← read_u32 host
    need 4
    count ← read_u32 host
    ids ← read_times count read_deleted_id
    deleted ← next_bool
    pure (record {
      login = login;
      last_read_message = last;
      deleted_message_ids = ids;
      deleted_from_chat = deleted;
    })

  unfoldable pub read_chat : Reader ChatDto
  read_chat = do
    id ← read_u64 host
    sender ← read_string_unchecked host
    count ← read_u32 host
    participants ← read_times count read_participant
    pure (record { chat_id = id; sender_login = sender; participants = participants })

  unfoldable pub read_content : Reader MessageContentDto
  read_content = do
    kind ← next
    payload ← read_string_unchecked host
    pure (record { message_content_type = kind; payload = payload })

  unfoldable pub read_message : Reader MessageDto
  read_message = do
    chat_id ← read_u64 host
    sender ← read_string_unchecked host
    id ← read_u64 host
    stamp ← read_u64 host
    count ← read_u32 host
    content ← read_times count read_content
    pure (record {
      chat_id = chat_id;
      message_id = id;
      sender_login = sender;
      message_content = content;
      time_stamp = to_i64 stamp;
    })

-- `unset` is what a std::size_t holds that the code declares and never assigns.
module _ (host : Host) (unset : ℕ) where
  -- A message inside messageChatDTO: `msg.chatId` is not assigned.
  unfoldable pub read_chat_message : Reader MessageDto
  read_chat_message = do
    sender ← read_string_unchecked host
    id ← read_u64 host
    stamp ← read_u64 host
    count ← read_u32 host
    content ← read_times count (read_content host)
    pure (record {
      chat_id = unset;
      message_id = id;
      sender_login = sender;
      message_content = content;
      time_stamp = to_i64 stamp;
    })

  unfoldable pub read_message_chat : Reader MessageChatDto
  read_message_chat = do
    id ← read_u64 host
    count ← read_u32 host
    messages ← read_times count read_chat_message
    pure (record { chat_id = id; messages = messages })
