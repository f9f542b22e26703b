-- ===== src/Wire/RoundTrip/Conversation.antt =====
-- The conversation classes read back: chatDTO, messageChatDTO and messageDTO. Two fields change
-- on the way: `lastReadMessage` is cut to 32 bits, and the chat id of a message inside
-- messageChatDTO is not sent.
use chat_bot.Base.{ℕ, ◌%◌, ◌^◌, ◌<◌, ◌≡◌, refl, subst, arith, List, [], ◌∷◌, map, All, length}
use chat_bot.Base.Int.{IsI64, to_u64, to_u64-lt, to_i64-to_u64}
use chat_bot.Wire.Host.{Host}
use chat_bot.Wire.Reader.{read_times}
use chat_bot.Wire.Dto.{MessageContentDto, MessageDto, MessageChatDto, ParticipantsDto, ChatDto}
use chat_bot.Wire.Decode.Conversation.{
  read_deleted_id, read_participant, read_chat, read_content, read_chat_message, read_message_chat,
  read_message,
}
use chat_bot.Wire.Encode.{
  each, write_u64, write_participant, write_chat, write_content, write_chat_message,
  write_message_chat, write_message,
}
use chat_bot.Wire.RoundTrip.Rules.{Reads, Reads-bind, Reads-last, Reads-need, Reads-times}
use chat_bot.Wire.RoundTrip.Numbers.{
  write_u32_leads, length-write_u64, Reads-next, Reads-bool, Reads-u32, Reads-u32_mod, Reads-u64,
  Reads-string_unchecked,
}
use chat_bot.Wire.RoundTrip.Account.{FitsText, IsU64}

-- A list whose length fits its 32-bit count.
abbrev pub FitsCount {ℓ} : {A : Type ℓ} → List A → Type 0
FitsCount xs = length xs < 2 ^ 32

pub record FitsParticipant (p : ParticipantsDto) : Type 0 where
  pub login : FitsText p.login
  pub count : FitsCount p.deleted_message_ids
  pub ids : All IsU64 p.deleted_message_ids

pub record FitsChat (c : ChatDto) : Type 0 where
  pub id : IsU64 c.chat_id
  pub sender : FitsText c.sender_login
  pub count : FitsCount c.participants
  pub participants : All FitsParticipant c.participants

pub record FitsContent (c : MessageContentDto) : Type 0 where
  pub kind : c.message_content_type < 256
  pub payload : FitsText c.payload

pub record FitsMessage (m : MessageDto) : Type 0 where
  pub chat_id : IsU64 m.chat_id
  pub id : IsU64 m.message_id
  pub sender : FitsText m.sender_login
  pub stamp : IsI64 m.time_stamp
  pub count : FitsCount m.message_content
  pub content : All FitsContent m.message_content

pub record FitsMessageChat (c : MessageChatDto) : Type 0 where
  pub id : IsU64 c.chat_id
  pub count : FitsCount c.messages
  pub messages : All FitsMessage c.messages

abbrev pub received_participant : ParticipantsDto → ParticipantsDto
received_participant p = record p { last_read_message = p.last_read_message % 2 ^ 32 }

abbrev pub received_chat : ChatDto → ChatDto
received_chat c = record c { participants = map received_participant c.participants }

abbrev pub received_chat_message : ℕ → MessageDto → MessageDto
received_chat_message unset m = record m { chat_id = unset }

abbrev pub received_message_chat : ℕ → MessageChatDto → MessageChatDto
received_message_chat unset c = record c { messages = map (received_chat_message unset) c.messages }

map_id {ℓ} : {A : Type ℓ} (xs : List A) → map (λ x. x) xs ≡ xs
map_id [] = refl
map_id (x ∷ xs) = rw (map_id xs)

module _ (host : Host) where
  Reads-deleted_id : (id : ℕ) → IsU64 id → Reads (read_deleted_id host) (write_u64 host id) id
  unfolding read_deleted_id
  Reads-deleted_id id h =
      Reads-need 8 (omega (arith, length-write_u64 host id)) (Reads-u64 host id h)

  Reads-deleted_ids :
      (ids : List ℕ)
      → All IsU64 ids
      → Reads (read_times (length ids) (read_deleted_id host)) (each (write_u64 host) ids) ids
  Reads-deleted_ids ids h =
      subst (Reads _ _) (map_id ids)
        (Reads-times (read_deleted_id host) (write_u64 host) (λ x. x) IsU64 Reads-deleted_id ids h)

  Reads-participant :
      (p : ParticipantsDto)
      → FitsParticipant p
      → Reads (read_participant host) (write_participant host p) (received_participant p)
  unfolding read_participant write_participant
  Reads-participant p fits = Reads-bind _ (Reads-string_unchecked host p.login fits.login) (
      Reads-bind _ (Reads-u32_mod host p.last_read_message) (
        Reads-need 4 (write_u32_leads host (length p.deleted_message_ids) _) (
          Reads-bind _ (Reads-u32 host (length p.deleted_message_ids) fits.count) (
            Reads-bind _ (Reads-deleted_ids p.deleted_message_ids fits.ids)
              (Reads-last _ (Reads-bool p.deleted_from_chat))))))

  pub Reads-chat :
      (c : ChatDto) → FitsChat c → Reads (read_chat host) (write_chat host c) (received_chat c)
  unfolding read_chat write_chat
  Reads-chat c fits = Reads-bind _ (Reads-u64 host c.chat_id fits.id) (
      Reads-bind _ (Reads-string_unchecked host c.sender_login fits.sender) (
        Reads-bind _ (Reads-u32 host (length c.participants) fits.count) (
          Reads-last _ (
            Reads-times (read_participant host) (write_participant host) received_participant
              FitsParticipant Reads-participant c.participants fits.participants))))

  Reads-content :
      (c : MessageContentDto) → FitsContent c → Reads (read_content host) (write_content host c) c
  unfolding read_content write_content
  Reads-content c fits =
      let small : c.message_content_type % 256 ≡ c.message_content_type = omega arith in
      rw small (
        Reads-bind _ (Reads-next c.message_content_type)
          (Reads-last _ (Reads-string_unchecked host c.payload fits.payload)))

  Reads-contents :
      (cs : List MessageContentDto)
      → All FitsContent cs
      → Reads (read_times (length cs) (read_content host)) (each (write_content host) cs) cs
  Reads-contents cs h =
      subst (Reads _ _) (map_id cs) (
        Reads-times (read_content host) (write_content host) (λ x. x) FitsContent Reads-content cs
          h)

  pub Reads-message :
      (m : MessageDto) → FitsMessage m → Reads (read_message host) (write_message host m) m
  unfolding read_message write_message
  Reads-message m fits =
      subst (λ t. Reads (read_message host) (write_message host m) (record m { time_stamp = t }))
        (to_i64-to_u64 m.time_stamp fits.stamp)
        (Reads-bind _ (Reads-u64 host m.chat_id fits.chat_id) (
          Reads-bind _ (Reads-string_unchecked host m.sender_login fits.sender) (
            Reads-bind _ (Reads-u64 host m.message_id fits.id) (
              Reads-bind _ (Reads-u64 host (to_u64 m.time_stamp) (to_u64-lt m.time_stamp)) (
                Reads-bind _ (Reads-u32 host (length m.message_content) fits.count)
                  (Reads-last _ (Reads-contents m.message_content fits.content)))))))

  Reads-chat_message :
      (unset : ℕ) (m : MessageDto)
      → FitsMessage m
      → Reads
          (read_chat_message host unset)
          (write_chat_message host m)
          (received_chat_message unset m)
  unfolding read_chat_message write_chat_message
  Reads-chat_message unset m fits =
      subst
        (λ t.
          Reads (read_chat_message host unset) (write_chat_message host m)
            (record m { chat_id = unset; time_stamp = t }))
        (to_i64-to_u64 m.time_stamp fits.stamp)
        (Reads-bind _ (Reads-string_unchecked host m.sender_login fits.sender) (
          Reads-bind _ (Reads-u64 host m.message_id fits.id) (
            Reads-bind _ (Reads-u64 host (to_u64 m.time_stamp) (to_u64-lt m.time_stamp)) (
              Reads-bind _ (Reads-u32 host (length m.message_content) fits.count)
                (Reads-last _ (Reads-contents m.message_content fits.content))))))

  pub Reads-message_chat :
      (unset : ℕ) (c : MessageChatDto)
      → FitsMessageChat c
      → Reads
          (read_message_chat host unset)
          (write_message_chat host c)
          (received_message_chat unset c)
  unfolding read_message_chat write_message_chat
  Reads-message_chat unset c fits = Reads-bind _ (Reads-u64 host c.chat_id fits.id) (
      Reads-bind _ (Reads-u32 host (length c.messages) fits.count) (
        Reads-last _ (
          Reads-times (read_chat_message host unset) (write_chat_message host)
            (received_chat_message unset) FitsMessage (Reads-chat_message unset) c.messages
            fits.messages)))
