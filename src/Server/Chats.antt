-- ===== src/Server/Chats.antt =====
-- createNewChatSrv of Shark_2_0_CLI/src/server/server_session.cpp keeps the state of the server sound.
pub mod Participants
use chat_bot.Base.{
  ℕ, ◌+◌, ◌-◌, ◌^◌, ◌<◌, ◌≡◌, refl, sym, subst, ap, ◌∙◌, inl, inr, Bool, true, false, some, List,
  [], ◌∷◌, ◌++◌, All, if◌then◌else◌, Bool-cases, Option-cases,
}
use chat_bot.Base.Maps.{find}
use chat_bot.Wire.Reader.{Bytes}
use chat_bot.Wire.Dto.{ParticipantsDto, ChatDto}
use chat_bot.Chat.{Chat, add_participant, set_last_read_message_id}
use chat_bot.Chat.Parts.{bytes_key, nat_key, has, insert_id}
use chat_bot.Chat.Invariant.{IsConsistent}
use chat_bot.System.{
  Account, ChatSystem, create_on_server, find_user_by_login, add_to_participants, register_chat,
  move_to_free_chat_id_srv, add_chat_to_instance, returned,
}
use chat_bot.System.Lists.{add_to_list}
use chat_bot.System.Rollback.{holding, touch, IsAddedFor, add_to_participants-IsAddedFor}
use chat_bot.System.Instance.{
  IsPresent, nobody, server_side, add_on_server-eq-true, add_to_participants-present,
}
use chat_bot.System.Create.Server.{create_new_chat_id-server_side, List-cases}
use chat_bot.Server.{Server, user_of, store_chat}
use chat_bot.Server.Create.{empty_chat, add_participants, after_added, create_new_chat_srv}
use chat_bot.Server.Ends.{Returns}
use chat_bot.Server.Sound.{
  IsAliveBut, IsListed, insert-IsAliveBut, assign-IsAlive, assign-HasConsistent,
}
use chat_bot.Server.Messages.{IsReady, assign-IsRoomy}
use Participants.{
  create_on_server-IsNumbered, IsFresh, empty_chat-IsFresh, add_participants-IsFresh,
}

touch-some : (chat : ℕ) (b : Bool) (l : List ℕ) → (k : List ℕ) × (touch chat b (some l) ≡ some k)
unfolding touch
touch-some chat true l = (holding chat l, refl)
touch-some chat false l = (l, refl)

-- No user loses the list of chats.
IsAddedFor-IsListed :
    (chat : ℕ) (added : List ℕ) (logins : List (Bytes × Account)) (before after : List (ℕ × List ℕ))
    → IsAddedFor chat added before after
    → IsListed logins before
    → IsListed logins after
IsAddedFor-IsListed chat added logins before after h listed login account found =
    let (l, there) = listed login account found in
    let (k, touched) = touch-some chat (has account.address added) l in
    (k, h account.address ∙ ap (touch chat (has account.address added)) there ∙ touched)

-- The system behind addChatToInstance.
abbrev pub added_system : ℕ → Chat → ChatSystem → ChatSystem
added_system address chat s =
    register_chat address chat
      (record s { chat_lists = (add_to_participants address chat.participants s.chat_lists []).1 })

pub added-eq-returned :
    (address : ℕ) (chat : Chat) (s : ChatSystem)
    → s.is_server_status ≡ true
    → All (IsPresent s.chat_lists) chat.participants
    → add_chat_to_instance (some (address, chat)) s ≡ returned true (added_system address chat s)
added-eq-returned address chat s server present =
    server_side address chat s server
    ∙ add_on_server-eq-true address chat s
        (add_to_participants-present address chat.participants s.chat_lists [] present).0

-- A server with a new system whose ids find chats that are alive, or the one that is stored.
store-IsReady :
    (n address : ℕ) (chat : Chat) (system : ChatSystem) (s : Server)
    → n < 2 ^ 64 - 1
    → IsReady n s
    → IsConsistent chat
    → chat.message_id_map ≡ []
    → IsAliveBut address system.chat_id_chat_map s.chat_heap
    → IsListed system.login_user_map system.chat_lists
    → system.is_server_status ≡ true
    → IsReady n (store_chat address chat (record s { system = system }))
unfolding store_chat
store-IsReady n address chat system s small (sound, roomy) here empty alive listed server = (
  record {
    consistent = assign-HasConsistent address chat s.chat_heap here sound.consistent;
    alive = assign-IsAlive address chat system.chat_id_chat_map s.chat_heap alive;
    listed = listed;
    server = server;
  },
  assign-IsRoomy n address chat s.chat_heap (subst (All (λ i. i + n < 2 ^ 64 - 1)) (sym empty) tt)
      roomy,
)

-- With the users of the participants there, addChatToInstance keeps the server ready.
registered-IsReady :
    (n id address : ℕ) (chat : Chat) (system : ChatSystem) (s : Server)
    → n < 2 ^ 64 - 1
    → IsReady n s
    → IsFresh system.chat_lists chat
    → IsAliveBut address system.chat_id_chat_map s.chat_heap
    → IsListed system.login_user_map system.chat_lists
    → system.is_server_status ≡ true
    → Returns
        (λ r. IsReady n r.1)
        (after_added id address chat s (add_chat_to_instance (some (address, chat)) system))
unfolding after_added register_chat
registered-IsReady n id address chat system s small ready (here, empty, present) alive listed
      server =
    rw (added-eq-returned address chat system server present) (
      store-IsReady n address chat (added_system address chat system) s small ready here empty
        (insert-IsAliveBut address chat.chat_id system.chat_id_chat_map s.chat_heap alive)
        (IsAddedFor-IsListed address _ system.login_user_map system.chat_lists _
          (add_to_participants-IsAddedFor address chat.participants [] system.chat_lists
            system.chat_lists (nobody address system.chat_lists))
          listed)
        server)

-- Where a participant is not found, the chat stays behind, with its id free again.
free-IsReady :
    (n id address : ℕ) (chat : Chat) (system : ChatSystem) (s : Server)
    → n < 2 ^ 64 - 1
    → IsReady n s
    → IsFresh system.chat_lists chat
    → IsAliveBut address system.chat_id_chat_map s.chat_heap
    → IsListed system.login_user_map system.chat_lists
    → system.is_server_status ≡ true
    → IsReady n (store_chat address chat (record s { system = move_to_free_chat_id_srv id system }))
unfolding move_to_free_chat_id_srv
free-IsReady n id address chat system s small ready (here, empty, present) alive listed server =
    subst
      (λ b. IsReady n (
        store_chat address chat (record s {
          system =
              if b
              then record system {
                free_chat_server_id_set = insert_id id system.free_chat_server_id_set;
              }
              else system;
        })))
      (sym server) (store-IsReady n address chat _ s small ready here empty alive listed server)

-- createNewChatSrv returns, and the chats of the server still agree with themselves.
pub create_new_chat_srv-IsReady :
    (n address : ℕ) (dto : ChatDto) (s : Server)
    → n < 2 ^ 64 - 1
    → IsReady n s
    → Returns (λ r. IsReady n r.1) (create_new_chat_srv address dto s)
unfolding create_new_chat_srv
create_new_chat_srv-IsReady n address dto s small ready =
    let sound = ready.0 in
    let made = create_on_server address s.system in
    let (same_logins, same_lists, same_status, numbered) =
      create_on_server-IsNumbered address s.system in
    let status : made.1.is_server_status ≡ true = same_status ∙ sound.server in
    let alive = numbered s.chat_heap (λ id at found. inr (sound.alive id at found)) in
    let listed : IsListed made.1.login_user_map made.1.chat_lists =
      rw (same_logins, same_lists) sound.listed in
    let added = add_participants dto.participants made.1 (empty_chat made.0) in
    let fresh =
      add_participants-IsFresh dto.participants made.1 (empty_chat made.0) listed
        (empty_chat-IsFresh made.1.chat_lists made.0) in
    rw (create_new_chat_id-server_side address s.system sound.server) (elim (Bool-cases added.0) [
      | inl found ↦ rw found (
          registered-IsReady n made.0 address added.1 made.1 s small ready fresh alive listed
            status)
      | inr missing ↦
          rw missing
            (free-IsReady n made.0 address added.1 made.1 s small ready fresh alive listed status)
    ])
