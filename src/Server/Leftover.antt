-- ===== src/Server/Leftover.antt =====
-- What a chat that createNewChatSrv of Shark_2_0_CLI/src/server/server_session.cpp gave up leaves
-- behind: its id is free, and finds it all the same.
use chat_bot.Base.{
  ℕ, ◌≡◌, refl, ap, ◌∙◌, inl, inr, Bool, true, false, none, some, List, [], ◌∷◌, arith,
  if◌then◌else◌, Option-cases,
}
use chat_bot.Base.Maps.{find, insert, find-insert_fresh}
use chat_bot.Wire.Reader.{Bytes, ok}
use chat_bot.Wire.Dto.{ParticipantsDto, ChatDto}
use chat_bot.Chat.{Chat, add_participant, set_last_read_message_id}
use chat_bot.Chat.Parts.{bytes_key, nat_key, insert_id}
use chat_bot.System.{
  Account, ChatSystem, find_user_by_login, get_chat_by_id, next_server_id, create_on_server,
  move_to_free_chat_id_srv,
}
use chat_bot.System.Create.Server.{create_new_chat_id-server_side}
use chat_bot.Server.{Server, store_chat}
use chat_bot.Server.Create.{empty_chat, add_participants, create_new_chat_srv}
use chat_bot.Server.Ends.{branches}
use chat_bot.Server.Chats.Participants.{create_on_server-IsNumbered}

-- Whether each participant has a user.
unfoldable pub all_known : List ParticipantsDto → List (Bytes × Account) → Bool
all_known [] logins = true
all_known (p ∷ ps) logins =
    let later = all_known ps logins in elim (find p.login logins) [ none ↦ false | some _ ↦ later ]

pub add_participants-all_known :
    (ps : List ParticipantsDto) (system : ChatSystem) (chat : Chat)
    → (add_participants ps system chat).0 ≡ all_known ps system.login_user_map
unfolding add_participants all_known find_user_by_login
add_participants-all_known [] system chat = refl
add_participants-all_known (p ∷ ps) system chat =
    elim (Option-cases (find p.login system.login_user_map)) [
      | inl unknown ↦ rw (unknown, add_participants, all_known) refl
      | inr (account, known) ↦
          rw (known, add_participants, all_known) (add_participants-all_known ps system _)
    ]

-- Participants change neither the id nor the messages.
abbrev pub HasNoMessages : ℕ → Chat → Type 0
HasNoMessages id chat = (chat.chat_id ≡ id) × (chat.messages ≡ [])

pub add_participants-HasNoMessages :
    (id : ℕ) (ps : List ParticipantsDto) (system : ChatSystem) (chat : Chat)
    → HasNoMessages id chat
    → HasNoMessages id (add_participants ps system chat).1
unfolding add_participants add_participant set_last_read_message_id
add_participants-HasNoMessages id [] system chat h = h
add_participants-HasNoMessages id (p ∷ ps) system chat h =
    elim (Option-cases (find_user_by_login p.login system)) [
      | inl unknown ↦ rw (unknown, add_participants) h
      | inr (account, known) ↦
          rw (known, add_participants) (add_participants-HasNoMessages id ps system _ h)
    ]

create_on_server-empty :
    (address : ℕ) (s : ChatSystem)
    → s.free_chat_server_id_set ≡ []
    → ((create_on_server address s).0 ≡ next_server_id s.chat_id_chat_map)
      × ((create_on_server address s).1.chat_id_chat_map
          ≡ insert (next_server_id s.chat_id_chat_map) address s.chat_id_chat_map)
      × ((create_on_server address s).1.free_chat_server_id_set ≡ [])
unfolding create_on_server
create_on_server-empty address s h = rw (h, create_on_server) (refl, refl, h)

pub create_on_server-taken :
    (address id : ℕ) (free : List ℕ) (s : ChatSystem)
    → s.free_chat_server_id_set ≡ id ∷ free
    → ((create_on_server address s).0 ≡ id)
      × ((create_on_server address s).1.chat_id_chat_map ≡ s.chat_id_chat_map)
unfolding create_on_server
create_on_server-taken address id free s h = rw (h, create_on_server) (refl, refl)

move_to_free-sets :
    (id : ℕ) (s : ChatSystem)
    → s.is_server_status ≡ true
    → ((move_to_free_chat_id_srv id s).chat_id_chat_map ≡ s.chat_id_chat_map)
      × ((move_to_free_chat_id_srv id s).free_chat_server_id_set
          ≡ insert_id id s.free_chat_server_id_set)
unfolding move_to_free_chat_id_srv
move_to_free-sets id s server =
    let moved : Bool → ChatSystem = λ b.
      if b
      then record s { free_chat_server_id_set = insert_id id s.free_chat_server_id_set }
      else s in
    (
      branches (λ (t : ChatSystem). t.chat_id_chat_map ≡ s.chat_id_chat_map) s.is_server_status _ _
          refl refl,
      ap (λ b. (moved b).free_chat_server_id_set) server,
    )

-- Where a participant of the chat has no user and no id is free, createNewChatSrv returns 0, but
-- the new id finds the chat that was given up, and it is the one free id.
pub create_new_chat_srv-leftover :
    (address : ℕ) (dto : ChatDto) (s : Server)
    → s.system.is_server_status ≡ true
    → s.system.free_chat_server_id_set ≡ []
    → find (next_server_id s.system.chat_id_chat_map) s.system.chat_id_chat_map ≡ none
    → all_known dto.participants s.system.login_user_map ≡ false
    → (after : Server) × (create_new_chat_srv address dto s ≡ ok (0, after))
      × (get_chat_by_id (next_server_id s.system.chat_id_chat_map) after.system ≡ some address)
      × (after.system.free_chat_server_id_set ≡ next_server_id s.system.chat_id_chat_map ∷ [])
      × (after.next_address ≡ s.next_address)
unfolding create_new_chat_srv get_chat_by_id store_chat insert_id
create_new_chat_srv-leftover address dto s server none_free fresh unknown =
    let id = next_server_id s.system.chat_id_chat_map in
    let made = create_on_server address s.system in
    let (same_logins, same_lists, same_status, numbered) =
      create_on_server-IsNumbered address s.system in
    let (numbered_id, ids, free) = create_on_server-empty address s.system none_free in
    let added = add_participants dto.participants made.1 (empty_chat made.0) in
    let missing : added.0 ≡ false =
      add_participants-all_known dto.participants made.1 (empty_chat made.0)
      ∙ ap (all_known dto.participants) same_logins
      ∙ unknown in
    let (kept, freed) = move_to_free-sets made.0 made.1 (same_status ∙ server) in
    (
      store_chat address added.1 (record s { system = move_to_free_chat_id_srv made.0 made.1 }),
      rw (create_new_chat_id-server_side address s.system server) (rw missing refl),
      ap (find id) (kept ∙ ids)
          ∙ find-insert_fresh id id address s.system.chat_id_chat_map fresh
          ∙ ground arith,
      freed ∙ ap (insert_id made.0) free ∙ ap (λ i. i ∷ []) numbered_id,
      refl,
    )
