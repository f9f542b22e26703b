-- ===== src/Server/Steps.antt =====
-- The rounds of listeningClients of Shark_2_0_CLI/src/server/server_session.cpp one after the other, as
-- the loop of main of Shark_2_0_CLI/src/server/server.cpp runs them.
use chat_bot.Base.{ℕ, ◌+◌, ◌-◌, ◌^◌, ◌<◌, ◌≡◌, subst, refl, none, true, List, [], arith}
use chat_bot.Base.Maps.{find}
use chat_bot.Chat.Parts.{bytes_key, nat_key}
use chat_bot.Wire.Reader.{
  Outcome, ok, throw, fault, wrong_packet_size, unsupported_deserialize_type, internal_data_error,
  empty_packet, header_wrong_type, header_wrong_data, user_not_found,
}
use chat_bot.Server.{Server}
use chat_bot.Server.Dto.{PacketDto}
use chat_bot.Server.Replies.{Handled}
use chat_bot.Server.Routing.{
  Round, served, disconnected, terminated, round_of, handle_packets, listening_clients,
}
use chat_bot.Server.Sound.{IsSound}
use chat_bot.Server.Messages.{IsReady}
use chat_bot.Server.Load.{load, LeavesReady, IsReady-le}
use chat_bot.Server.Requests.{handle_packets-LeavesReady}

-- The server of main behind setIsServerStatus(true), before systemInitForTest adds users and chats.
unfoldable pub started : Server
started = record {
  system = record {
    users = [];
    chats = [];
    active_user = none;
    login_user_map = [];
    chat_id_chat_map = [];
    next_chat_id_client = 1;
    is_server_status = true;
    free_chat_server_id_set = [];
    chat_lists = [];
  };
  chat_heap = [];
  next_address = 1;
}

-- The states that lists of packets lead to, with the messages that they carry counted.
pub data IsServed : Server → ℕ → Server → Type 0 where
  here : {s : Server} → IsServed s 0 s
  answered :
      {s before : Server} {n : ℕ} (packets : List PacketDto) (handled : Handled) (after : Server)
      → IsServed s n before
      → listening_clients packets before ≡ served handled after
      → IsServed s (load packets + n) after
  dropped :
      {s before : Server} {n : ℕ} (packets : List PacketDto) (after : Server)
      → IsServed s n before
      → listening_clients packets before ≡ disconnected after
      → IsServed s (load packets + n) after

-- The state behind a round that main survives.
abbrev Leaves : ℕ → Round → Type 0
Leaves n (served handled after) = IsReady n after
Leaves n (disconnected after) = IsReady n after
Leaves n terminated = Unit

round_of-Leaves :
    (n : ℕ) (s : Server) (m : Outcome (Handled × Server))
    → IsReady n s
    → LeavesReady n m
    → Leaves n (round_of s m)
unfolding round_of
round_of-Leaves n s (ok (handled, after)) ready h = h
round_of-Leaves n s (throw wrong_packet_size) ready h = tt
round_of-Leaves n s (throw unsupported_deserialize_type) ready h = tt
round_of-Leaves n s (throw internal_data_error) ready h = tt
round_of-Leaves n s (throw empty_packet) ready h = tt
round_of-Leaves n s (throw header_wrong_type) ready h = ready
round_of-Leaves n s (throw header_wrong_data) ready h = ready
round_of-Leaves n s (throw user_not_found) ready h = tt
round_of-Leaves n s fault ready h = tt

listening_clients-Leaves :
    (n : ℕ) (packets : List PacketDto) (s : Server)
    → load packets + n < 2 ^ 64 - 1
    → IsReady (load packets + n) s
    → Leaves n (listening_clients packets s)
unfolding listening_clients
listening_clients-Leaves n packets s small ready =
    round_of-Leaves n s (handle_packets packets s)
      (IsReady-le (load packets + n) n s (omega arith) ready)
      (handle_packets-LeavesReady n packets s small ready)

pub IsServed-IsReady :
    (n m : ℕ) (s t : Server) → IsServed s m t → m + n < 2 ^ 64 - 1 → IsReady (m + n) s → IsReady n t
IsServed-IsReady n m s t here small ready = subst (λ k. IsReady k s) (omega arith) ready
IsServed-IsReady n m s t (answered {before = before} {n = k} packets handled after earlier ended)
      small ready =
    subst (Leaves n) ended (
      listening_clients-Leaves n packets before (omega (arith, small)) (
        IsServed-IsReady (load packets + n) k s before earlier (omega (arith, small))
          (subst (λ j. IsReady j s) (omega arith) ready)))
IsServed-IsReady n m s t (dropped {before = before} {n = k} packets after earlier ended) small
      ready =
    subst (Leaves n) ended (
      listening_clients-Leaves n packets before (omega (arith, small)) (
        IsServed-IsReady (load packets + n) k s before earlier (omega (arith, small))
          (subst (λ j. IsReady j s) (omega arith) ready)))

pub started-IsReady : (n : ℕ) → IsReady n started
unfolding started find
started-IsReady n = (
  record {
    consistent = λ address chat found. absurd (ground (arith, found));
    alive = λ id address found. absurd (ground (arith, found));
    listed = λ login account found. absurd (ground (arith, found));
    server = refl;
  },
  λ address chat found. absurd (ground (arith, found)),
)

-- However many lists of packets a server that started empty has answered, with less than
-- 2 ^ 64 - 1 messages in them, each of its chats has its messages in the order of their times, with
-- ids and times that agree with them, each chat id finds a chat, each login finds a user with a
-- list of chats, and it is a server.
pub IsServed-IsSound : (n : ℕ) (s : Server) → IsServed started n s → n < 2 ^ 64 - 1 → IsSound s
IsServed-IsSound n s reached small =
    (IsServed-IsReady 0 n started s reached (omega (arith, small)) (started-IsReady (n + 0))).0
