-- ===== src/Server/Chats/Participants.antt =====
-- The id and the participants of a chat that createNewChatSrv of
-- Shark_2_0_CLI/src/server/server_session.cpp makes.
use chat_bot.Base.{ℕ, ◌≡◌, refl, inl, inr, Bool, some, List, [], ◌∷◌, ◌++◌, All, Option-cases}
use chat_bot.Base.Maps.{find}
use chat_bot.Wire.Dto.{ParticipantsDto}
use chat_bot.Chat.{Chat, add_participant, set_last_read_message_id}
use chat_bot.Chat.Parts.{bytes_key, nat_key, has}
use chat_bot.Chat.Invariant.{IsConsistent}
use chat_bot.System.{Account, ChatSystem, create_on_server, find_user_by_login}
use chat_bot.System.Instance.{IsPresent}
use chat_bot.System.Create.Server.{List-cases}
use chat_bot.Server.{user_of}
use chat_bot.Server.Create.{empty_chat, add_participants}
use chat_bot.Server.Sound.{IsAliveBut, IsListed, insert-IsAliveBut}

-- What createNewChatId leaves as it was, and the map of ids, which may have the new chat.
abbrev pub IsNumbered : ℕ → ChatSystem → ChatSystem → Type 0
IsNumbered address before after =
    (after.login_user_map ≡ before.login_user_map)
    × (after.chat_lists ≡ before.chat_lists)
    × (after.is_server_status ≡ before.is_server_status)
    × ((heap : List (ℕ × Chat))
        → IsAliveBut address before.chat_id_chat_map heap
        → IsAliveBut address after.chat_id_chat_map heap)

pub create_on_server-IsNumbered :
    (address : ℕ) (s : ChatSystem) → IsNumbered address s (create_on_server address s).1
unfolding create_on_server
create_on_server-IsNumbered address s = elim (List-cases s.free_chat_server_id_set) [
  | inl empty ↦
      rw (empty, create_on_server)
        (refl, refl, refl, λ heap h. insert-IsAliveBut address _ s.chat_id_chat_map heap h)
  | inr (value, free, taken) ↦ rw (taken, create_on_server) (refl, refl, refl, λ heap h. h)
]

-- A chat to which participants are added.
abbrev pub IsFresh : List (ℕ × List ℕ) → Chat → Type 0
IsFresh lists chat =
    IsConsistent chat × (chat.message_id_map ≡ []) × All (IsPresent lists) chat.participants

pub empty_chat-IsFresh : (lists : List (ℕ × List ℕ)) (id : ℕ) → IsFresh lists (empty_chat id)
unfolding empty_chat has find
empty_chat-IsFresh lists id = (
  record { sorted = tt; ascending = tt; listed = tt; dated = tt; known = λ i absent. refl },
  refl,
  tt,
)

All-append {ℓ κ} :
    {A : Type ℓ} (P : A → Type κ) (xs : List A) (y : A) → All P xs → P y → All P (xs ++ y ∷ [])
All-append P [] y h here = (here, tt)
All-append P (x ∷ xs) y h here = (h.0, All-append P xs y h.1 here)

add_participant-IsFresh :
    (lists : List (ℕ × List ℕ)) (account : Account) (chat_list : List ℕ) (last : ℕ) (deleted : Bool)
    (chat : Chat)
    → find account.address lists ≡ some chat_list
    → IsFresh lists chat
    → IsFresh lists (add_participant (user_of account) last deleted chat)
unfolding add_participant set_last_read_message_id
add_participant-IsFresh lists account chat_list last deleted chat there (h, none_yet, present) = (
  record {
    sorted = h.sorted;
    ascending = h.ascending;
    listed = h.listed;
    dated = h.dated;
    known = h.known;
  },
  none_yet,
  All-append (IsPresent lists) chat.participants _ present
      (account.address, chat_list, refl, there),
)

pub add_participants-IsFresh :
    (ps : List ParticipantsDto) (system : ChatSystem) (chat : Chat)
    → IsListed system.login_user_map system.chat_lists
    → IsFresh system.chat_lists chat
    → IsFresh system.chat_lists (add_participants ps system chat).1
unfolding add_participants find_user_by_login
add_participants-IsFresh [] system chat listed h = h
add_participants-IsFresh (p ∷ ps) system chat listed h =
    elim (Option-cases (find p.login system.login_user_map)) [
      | inl unknown ↦ rw (unknown, add_participants) h
      | inr (account, known) ↦
          let (chat_list, there) = listed p.login account known in
          rw (known, add_participants)
            (add_participants-IsFresh ps system _ listed (
              add_participant-IsFresh system.chat_lists account chat_list p.last_read_message
                p.deleted_from_chat chat there h))
    ]
