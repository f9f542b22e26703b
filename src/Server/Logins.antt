-- ===== src/Server/Logins.antt =====
-- The functions of Shark_2_0_CLI/src/server/server_session.cpp that create chats and messages, or
-- mark messages as read, leave the users as they were.
pub mod Handlers
use chat_bot.Base.{ℕ, ◌+◌, ◌≡◌, refl, ◌∙◌, inl, inr, some, List, [], ◌∷◌, Bool-cases, Option-cases}
use chat_bot.Base.Maps.{find}
use chat_bot.Wire.Reader.{Outcome}
use chat_bot.Wire.Dto.{MessageDto, ChatDto}
use chat_bot.Chat.{Chat}
use chat_bot.Chat.Parts.{nat_key}
use chat_bot.System.{
  ChatSystem, Added, chat_not_found, null_pointer, returned, find_user_by_login, get_chat_by_id,
  create_new_chat_id, create_on_client, next_free_id, add_to_participants, add_chat_to_instance,
  add_on_server, add_on_client, register_chat, move_to_free_chat_id_srv,
}
use chat_bot.System.Lists.{max_key}
use chat_bot.Server.{Server, deref, lock_chat, store_chat}
use chat_bot.Server.Create.{
  add_participants, empty_chat, after_added, create_new_chat_srv, add_to_chat, first_content,
  create_new_message_srv, create_new_message_chat_srv,
}
use chat_bot.Server.Ends.{Ensures, Ensures-bind, Ensures-any, Ensures-if, branches}
use chat_bot.Server.Chats.Participants.{create_on_server-IsNumbered}

-- The logins are those of the server before.
abbrev pub HasSameLogins : ChatSystem → ChatSystem → Type 0
HasSameLogins before after = after.login_user_map ≡ before.login_user_map

-- What a call leaves, where it returns.
abbrev pub KeepsLogins {ℓ} : {A : Type ℓ} → Server → Outcome (A × Server) → Type 0
KeepsLogins s = Ensures (λ r. HasSameLogins s.system r.1.system)

create_on_client-HasSameLogins :
    (address : ℕ) (s : ChatSystem)
    → Ensures (λ r. HasSameLogins s r.1) (deref (create_on_client address s))
unfolding create_on_client
create_on_client-HasSameLogins address s =
    elim (Option-cases
      (next_free_id (max_key 0 s.chat_id_chat_map + 2) s.next_chat_id_client s.chat_id_chat_map)) [
        | inl endless ↦ rw (endless, create_on_client) tt
        | inr (id, free) ↦ rw (free, create_on_client) refl
      ]

create_new_chat_id-HasSameLogins :
    (address : ℕ) (s : ChatSystem)
    → Ensures (λ r. HasSameLogins s r.1) (deref (create_new_chat_id address s))
unfolding create_new_chat_id
create_new_chat_id-HasSameLogins address s =
    branches (λ o. Ensures (λ (r : ℕ × ChatSystem). HasSameLogins s r.1) (deref o))
      s.is_server_status _ _ (create_on_server-IsNumbered address s).0
      (create_on_client-HasSameLogins address s)

abbrev AddedSame : ChatSystem → Added → Type 0
AddedSame before chat_not_found = Unit
AddedSame before null_pointer = Unit
AddedSame before (returned result after) = HasSameLogins before after

add_on_server-AddedSame :
    (address : ℕ) (chat : Chat) (s : ChatSystem) → AddedSame s (add_on_server address chat s)
unfolding add_on_server register_chat
add_on_server-AddedSame address chat s =
    elim (Bool-cases (add_to_participants address chat.participants s.chat_lists []).0) [
      | inl all ↦ rw (all, add_on_server) refl
      | inr stopped ↦ rw (stopped, add_on_server) refl
    ]

add_on_client-AddedSame :
    (address : ℕ) (chat : Chat) (s : ChatSystem) → AddedSame s (add_on_client address chat s)
unfolding add_on_client register_chat
add_on_client-AddedSame address chat s = elim (Option-cases s.active_user) [
  | inl nobody ↦ rw (nobody, add_on_client) tt
  | inr (user, active) ↦ elim (Option-cases (find user s.chat_lists)) [
    | inl gone ↦ rw (active, gone, add_on_client) tt
    | inr (chat_list, there) ↦ rw (active, there, add_on_client) refl
  ]
]

add_chat_to_instance-AddedSame :
    (address : ℕ) (chat : Chat) (s : ChatSystem)
    → AddedSame s (add_chat_to_instance (some (address, chat)) s)
unfolding add_chat_to_instance
add_chat_to_instance-AddedSame address chat s =
    branches (AddedSame s) s.is_server_status _ _ (add_on_server-AddedSame address chat s)
      (add_on_client-AddedSame address chat s)

after_added-KeepsLogins :
    (id address : ℕ) (chat : Chat) (before : ChatSystem) (s : Server) (added : Added)
    → HasSameLogins s.system before
    → AddedSame before added
    → KeepsLogins s (after_added id address chat s added)
unfolding after_added store_chat
after_added-KeepsLogins id address chat before s chat_not_found same h = tt
after_added-KeepsLogins id address chat before s null_pointer same h = tt
after_added-KeepsLogins id address chat before s (returned result after) same h = h ∙ same

move_to_free-HasSameLogins :
    (id : ℕ) (s : ChatSystem) → HasSameLogins s (move_to_free_chat_id_srv id s)
unfolding move_to_free_chat_id_srv
move_to_free-HasSameLogins id s = branches (HasSameLogins s) s.is_server_status _ _ refl refl

pub create_new_chat_srv-KeepsLogins :
    (address : ℕ) (dto : ChatDto) (s : Server) → KeepsLogins s (create_new_chat_srv address dto s)
unfolding create_new_chat_srv store_chat
create_new_chat_srv-KeepsLogins address dto s =
    let P : ℕ × Server → Type 0 = λ r. HasSameLogins s.system r.1.system in
    Ensures-bind (λ r. HasSameLogins s.system r.1) P (deref (create_new_chat_id address s.system)) _
      (create_new_chat_id-HasSameLogins address s.system)
      (λ (id, system) same.
        let (found, chat) = add_participants dto.participants system (empty_chat id) in
        Ensures-if P found _ _
          (after_added-KeepsLogins id address chat system s
            (add_chat_to_instance (some (address, chat)) system) same
            (add_chat_to_instance-AddedSame address chat system))
          (move_to_free-HasSameLogins id system ∙ same))

pub create_new_message_srv-KeepsLogins :
    (dto : MessageDto) (s : Server) → KeepsLogins s (create_new_message_srv dto s)
unfolding create_new_message_srv add_to_chat store_chat
create_new_message_srv-KeepsLogins dto s =
    elim (Option-cases (get_chat_by_id dto.chat_id s.system)) [
      | inl missing ↦ rw (missing, create_new_message_srv) refl
      | inr (address, found) ↦ elim (Option-cases (find_user_by_login dto.sender_login s.system)) [
        | inl unknown ↦ rw (found, unknown, create_new_message_srv) refl
        | inr (sender, known) ↦ elim (Option-cases (first_content dto.message_content)) [
          | inl empty ↦ rw (found, known, empty, create_new_message_srv) refl
          | inr (content, first) ↦
              rw (found, known, first, create_new_message_srv)
                (Ensures-any _ (deref (lock_chat address s)) _ (λ chat. refl))
        ]
      ]
    ]

pub create_new_message_chat_srv-KeepsLogins :
    (chat_id : ℕ) (dtos : List MessageDto) (before s : Server)
    → HasSameLogins before.system s.system
    → Ensures
        (λ after. HasSameLogins before.system after.system)
        (create_new_message_chat_srv chat_id dtos s)
unfolding create_new_message_chat_srv
create_new_message_chat_srv-KeepsLogins chat_id [] before s same = same
create_new_message_chat_srv-KeepsLogins chat_id (dto ∷ dtos) before s same =
    Ensures-bind (λ r. HasSameLogins s.system r.1.system) _
      (create_new_message_srv (record dto { chat_id = chat_id }) s) _
      (create_new_message_srv-KeepsLogins (record dto { chat_id = chat_id }) s)
      (λ r kept. create_new_message_chat_srv-KeepsLogins chat_id dtos before r.1 (kept ∙ same))
