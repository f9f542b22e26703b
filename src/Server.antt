-- ===== src/Server.antt =====
-- The server of the in-memory version, Shark_2_0_CLI/src/server/server_session.cpp: its state, and
-- what its functions return. Its children are the functions and their proofs.
pub mod Dto
pub mod RequestType
pub mod Fill
pub mod Create
pub mod Replies
pub mod Registry
pub mod Objects
pub mod Routing
pub mod Ends
pub mod Sound
pub mod Messages
pub mod Chats
pub mod Load
pub mod Queries
pub mod Requests
pub mod Steps
pub mod Directory
pub mod Logins
pub mod Enrolment
pub mod Answers
pub mod Leftover
pub mod Faults
pub mod Shadowed
pub mod Downfall
pub mod Passwords
pub mod Delivery
pub mod Served
pub mod Checks
pub mod Examples
mod Tests
use chat_bot.Base.{ℕ, ◌+◌, Bool, true, Option, none, some, List, [], ◌∷◌, ◌==◌, if◌then◌else◌}
use chat_bot.Base.Maps.{find, assign}
use chat_bot.Wire.Reader.{Outcome, ok, throw, fault}
use chat_bot.Chat.{Chat}
use chat_bot.Chat.Parts.{User, nat_key}
use chat_bot.System.{Account, ChatSystem}

-- The system, the chats that are alive by their addresses, and the next address that
-- std::make_shared gives out.
pub record Server : Type 0 where
  pub system : ChatSystem
  pub chat_heap : List (ℕ × Chat)
  pub next_address : ℕ

-- Calls in a row: an exception or an undefined step ends them.
infixl 5 ◌>>=◌
abbrev pub ◌>>=◌ {ℓ κ} : {A : Type ℓ} {B : Type κ} → Outcome A → (A → Outcome B) → Outcome B
ok a >>= f = f a
throw e >>= f = throw e
fault >>= f = fault

-- A pointer that is read: null is undefined.
abbrev pub deref {ℓ} : {A : Type ℓ} → Option A → Outcome A
deref none = fault
deref (some a) = ok a

-- A user as the chats know it.
abbrev pub user_of : Account → User
user_of account = record { address = account.address; login = account.login }

-- The user behind a weak pointer; the system keeps its users alive.
unfoldable pub user_at : ℕ → List Account → Option Account
user_at address [] = none
user_at address (account ∷ accounts) =
    let later = user_at address accounts in
    if account.address == address then some account else later

unfoldable pub lock_user : Option ℕ → Server → Option Account
lock_user none s = none
lock_user (some address) s = user_at address s.system.users

unfoldable pub lock_chat : ℕ → Server → Option Chat
lock_chat address s = find address s.chat_heap

-- A change of a chat through a pointer to it.
unfoldable pub store_chat : ℕ → Chat → Server → Server
store_chat address chat s = record s { chat_heap = assign address chat s.chat_heap }
