-- ===== src/Server/Delivery.antt =====
-- What Shark_2_0_CLI/src/server/server_session.cpp sends of a chat, behind createNewMessageSrv.
use chat_bot.Base.{
  ℕ, ◌≡◌, refl, ap, ◌∙◌, inl, inr, true, Option, none, some, List, [], ◌∷◌, ◌++◌, map, All, arith,
  if◌then◌else◌, Bool-cases,
}
use chat_bot.Base.Int.{ltb_ℤ}
use chat_bot.Base.Maps.{assign, find-assign}
use chat_bot.Text.Utf8.{same_text}
use chat_bot.Wire.Reader.{Bytes, ok}
use chat_bot.Wire.Dto.{MessageContentDto, MessageDto}
use chat_bot.Chat.{
  Chat, get_last_read_message_id, create_new_message_id, stamped, add_message_to_chat,
  set_message_id_map, set_message_id_to_time_stamp, set_last_read_message_id,
}
use chat_bot.Chat.Parts.{Message, User, bytes_key, nat_key, insert_message}
use chat_bot.Chat.Times.{All-insert_message}
use chat_bot.System.{Account, find_user_by_login, get_chat_by_id}
use chat_bot.Server.{Server, ◌>>=◌, user_of, user_at, lock_user, lock_chat, store_chat}
use chat_bot.Server.Fill.{
  sender_login, front, fill_for_send_one_message_dto, message_dtos, fill_for_send_chat_message_dto,
}
use chat_bot.Server.Create.{create_one_message, add_to_chat, first_content, create_new_message_srv}

-- A message has a text, the first of which is sent.
abbrev pub HasText : Message → Type 0
HasText m = (text : Bytes) × (texts : List Bytes) × (m.content ≡ text ∷ texts)

first_text : List Bytes → Bytes
first_text [] = []
first_text (text ∷ texts) = text

front-first :
    (l : List Bytes) (text : Bytes) (texts : List Bytes)
    → l ≡ text ∷ texts
    → front l ≡ ok (first_text l)
unfolding front first_text
front-first l text texts h = rw h refl

-- The message as it is sent.
abbrev sent_of : ℕ → Server → Message → MessageDto
sent_of chat_id s m = record {
  chat_id = chat_id;
  message_id = m.message_id;
  sender_login = sender_login m s;
  message_content = record { message_content_type = 0; payload = first_text m.content } ∷ [];
  time_stamp = m.time_stamp;
}

fill_for_send_one_message_dto-eq-ok :
    (m : Message) (chat_id : ℕ) (s : Server)
    → HasText m
    → fill_for_send_one_message_dto m chat_id s ≡ ok (sent_of chat_id s m)
unfolding fill_for_send_one_message_dto front first_text
fill_for_send_one_message_dto-eq-ok m chat_id s (text, texts, there) =
    rw (front-first m.content text texts there) refl

-- Two servers with the same users.
abbrev HasSameUsers : Server → Server → Type 0
HasSameUsers s t = (pointer : Option ℕ) → lock_user pointer t ≡ lock_user pointer s

stored-HasSameUsers :
    (address : ℕ) (chat : Chat) (s : Server) → HasSameUsers s (store_chat address chat s)
unfolding lock_user store_chat
stored-HasSameUsers address chat s none = refl
stored-HasSameUsers address chat s (some user) = refl

sender_login-same :
    (m : Message) (s t : Server) → HasSameUsers s t → sender_login m t ≡ sender_login m s
unfolding sender_login
sender_login-same m s t same = rw (same m.sender, sender_login) refl

message_dtos-eq-ok :
    (ms : List Message) (chat_id : ℕ) (s t : Server)
    → HasSameUsers s t
    → All HasText ms
    → message_dtos ms chat_id t ≡ ok (map (sent_of chat_id s) ms)
unfolding message_dtos
message_dtos-eq-ok [] chat_id s t same h = refl
message_dtos-eq-ok (m ∷ ms) chat_id s t same h =
    rw
      (
        fill_for_send_one_message_dto-eq-ok m chat_id t h.0,
        message_dtos-eq-ok ms chat_id s t same h.1,
        sender_login-same m s t same,
      )
      refl

-- The message stands between those that were there.
map-insert_message {ℓ} :
    {A : Type ℓ} (f : Message → A) (m : Message) (xs : List Message)
    → (before : List A) × (later : List A) × (map f xs ≡ before ++ later)
      × (map f (insert_message m xs) ≡ before ++ f m ∷ later)
unfolding insert_message
map-insert_message f m [] = ([], [], refl, refl)
map-insert_message f m (x ∷ xs) = elim (Bool-cases (ltb_ℤ m.time_stamp x.time_stamp)) [
  | inl earlier ↦ ([], map f (x ∷ xs), refl, rw earlier refl)
  | inr behind ↦
      let (before, later, old, new) = map-insert_message f m xs in
      (f x ∷ before, later, ap (λ l. f x ∷ l) old, rw behind (ap (λ l. f x ∷ l) new))
]

sender_login-known :
    (m : Message) (sender : Account) (s : Server)
    → m.sender ≡ some sender.address
    → user_at sender.address s.system.users ≡ some sender
    → sender_login m s ≡ sender.login
unfolding sender_login lock_user
sender_login-known m sender s mine there = rw (mine, there, sender_login, lock_user) refl

-- The message as createNewMessageSrv gives it to the chat.
abbrev given : MessageContentDto → Account → MessageDto → Chat → Message
given content sender dto chat = stamped true (create_one_message content sender dto) chat

-- What is on record as read, behind an assignment.
last_read_by :
    (reader sender : User) (id : ℕ) (after before : Chat)
    → after.last_read_message_map ≡ assign sender.login id before.last_read_message_map
    → get_last_read_message_id reader after
      ≡ (if same_text sender.login reader.login then id else get_last_read_message_id reader before)
unfolding get_last_read_message_id
last_read_by reader sender id after before assigned =
    rw
      (
        assigned,
        find-assign sender.login reader.login id before.last_read_message_map,
        get_last_read_message_id,
      )
      (elim (Bool-cases (same_text sender.login reader.login)) [
        | inl equal ↦ rw equal refl
        | inr differ ↦ rw differ refl
      ])

-- Where the chat and the sender of a message are known, it has a content and the messages of the
-- chat have texts, createNewMessageSrv returns the new id, and what is sent of the chat afterwards
-- is what was sent before, with one message more: the one with that id, the login of the sender,
-- the time and the first content. The participants and the messages deleted are the same, and the
-- last message that a reader has read is the new one for the sender and as before for everybody
-- else.
pub create_new_message_srv-delivered :
    (dto : MessageDto) (content : MessageContentDto) (contents : List MessageContentDto)
    (sender : Account) (address : ℕ) (chat : Chat) (s : Server) (reader : User)
    → dto.message_content ≡ content ∷ contents
    → find_user_by_login dto.sender_login s.system ≡ some sender
    → user_at sender.address s.system.users ≡ some sender
    → get_chat_by_id dto.chat_id s.system ≡ some address
    → lock_chat address s ≡ some chat
    → All HasText chat.messages
    → (after : Server) × (after_chat : Chat) × (before : List MessageDto) × (later : List
        MessageDto)
      × (create_new_message_srv dto s ≡ ok (create_new_message_id chat, after))
      × (lock_chat address after ≡ some after_chat)
      × (fill_for_send_chat_message_dto chat s
          ≡ ok (record { chat_id = chat.chat_id; messages = before ++ later }))
      × (fill_for_send_chat_message_dto after_chat after
          ≡ ok (record {
            chat_id = chat.chat_id;
            messages =
                before
                ++ record {
                  chat_id = chat.chat_id;
                  message_id = create_new_message_id chat;
                  sender_login = sender.login;
                  message_content =
                      record { message_content_type = 0; payload = content.payload } ∷ [];
                  time_stamp = dto.time_stamp;
                }
                  ∷ later;
          }))
      × (after_chat.participants ≡ chat.participants)
      × (after_chat.deleted_messages_map ≡ chat.deleted_messages_map)
      × (get_last_read_message_id reader after_chat ≡ (
          if same_text sender.login reader.login
          then create_new_message_id chat
          else get_last_read_message_id reader chat))
unfolding create_new_message_srv add_to_chat store_chat lock_chat stamped create_one_message
    first_content add_message_to_chat set_message_id_map set_message_id_to_time_stamp
    set_last_read_message_id fill_for_send_chat_message_dto first_text
create_new_message_srv-delivered dto content contents sender address chat s reader has_content known
      alive found there texts =
    let m = given content sender dto chat in
    let after_chat =
      add_message_to_chat (create_one_message content sender dto) (user_of sender) true chat in
    let after = store_chat address after_chat s in
    let (before, later, old, new) = map-insert_message (sent_of chat.chat_id s) m chat.messages in
    (
      after,
      after_chat,
      before,
      later,
      rw (found, known, has_content, there, create_new_message_srv) refl,
      find-assign address address after_chat s.chat_heap ∙ ground arith,
      rw (message_dtos-eq-ok chat.messages chat.chat_id s s (λ pointer. refl) texts) (rw old refl),
      ap (λ o. o >>= λ dtos. ok (record { chat_id = chat.chat_id; messages = dtos }))
            (message_dtos-eq-ok (insert_message m chat.messages) chat.chat_id s after
              (stored-HasSameUsers address after_chat s)
              (All-insert_message HasText m chat.messages (content.payload, [], refl) texts))
          ∙ ap (λ l. ok (record { chat_id = chat.chat_id; messages = l }))
              (new
                ∙ ap
                    (λ login.
                      before ++ record (sent_of chat.chat_id s m) { sender_login = login } ∷ later)
                    (sender_login-known m sender s refl alive)),
      refl,
      refl,
      last_read_by reader (user_of sender) m.message_id after_chat chat refl,
    )
