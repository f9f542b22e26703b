-- ===== src/Server/Queries.antt =====
-- The requests of Shark_2_0_CLI/src/server/server_session.cpp that only read the state of the server.
use chat_bot.Base.{inl, inr, none, some, List, Option-cases}
use chat_bot.Wire.Reader.{Outcome}
use chat_bot.Chat.Parts.{nat_key}
use chat_bot.System.{find_user_by_login, find_user_by_text_part}
use chat_bot.Server.{Server}
use chat_bot.Server.RequestType
use chat_bot.Server.Dto.{PacketDto, as_user_login, as_user_login_password}
use chat_bot.Server.Fill.{register_on_device_data}
use chat_bot.Server.Replies.{Handled, reply, refuse, packet_0}
use chat_bot.Server.Registry.{
  check_login, check_log_password, register_user, user_packets, logins_of, find_user_by_part,
}
use chat_bot.Server.Routing.{users_data, processing_get_indexes}
use chat_bot.Server.Ends.{Ensures, Ensures-any}

-- What held of the server holds of it behind the call, where it returns.
abbrev pub Keeps : (Server → Type 0) → Outcome (Handled × Server) → Type 0
Keeps P = Ensures (λ r. P r.1)

pub check_login-Keeps :
    (P : Server → Type 0) (packets : List PacketDto) (s : Server)
    → P s
    → Keeps P (check_login packets s)
unfolding check_login
check_login-Keeps P packets s h = Ensures-any _ (packet_0 packets) _ (λ packet.
    Ensures-any _ (as_user_login packet.struct_dto_ptr) _ (λ dto.
      elim (Option-cases (find_user_by_login dto.login s.system)) [
        | inl unknown ↦ rw unknown h
        | inr (account, known) ↦ rw known h
      ]))

pub check_log_password-Keeps :
    (P : Server → Type 0) (packets : List PacketDto) (s : Server)
    → P s
    → Keeps P (check_log_password packets s)
unfolding check_log_password
check_log_password-Keeps P packets s h = Ensures-any _ (packet_0 packets) _ (λ packet.
    Ensures-any _ (as_user_login_password packet.struct_dto_ptr) _ (λ dto.
      elim (Option-cases (find_user_by_login dto.login s.system)) [
        | inl unknown ↦ rw unknown h
        | inr (account, known) ↦ rw known h
      ]))

pub register_user-Keeps :
    (P : Server → Type 0) (packets : List PacketDto) (s : Server)
    → P s
    → Keeps P (register_user packets s)
unfolding register_user
register_user-Keeps P packets s h = Ensures-any _ (packet_0 packets) _ (λ packet.
    Ensures-any _ (as_user_login packet.struct_dto_ptr) _ (λ dto.
      Ensures-any _ (register_on_device_data (find_user_by_login dto.login s.system) s) _ (λ filled.
        elim filled as (λ o. Keeps P (elim o [ none ↦ refuse s | some list ↦ reply list s ])) [
          | none ↦ h
          | some list ↦ h
        ])))

pub find_user_by_part-Keeps :
    (P : Server → Type 0) (packets : List PacketDto) (s : Server)
    → P s
    → Keeps P (find_user_by_part packets s)
unfolding find_user_by_part
find_user_by_part-Keeps P packets s h = Ensures-any _ (packet_0 packets) _ (λ packet.
    Ensures-any _ (as_user_login packet.struct_dto_ptr) _ (λ dto.
      Ensures-any _
        (user_packets RequestType.find_user_by_part
          (logins_of (find_user_by_text_part dto.login s.system)) s)
        _ (λ found. h)))

pub processing_get_indexes-Keeps :
    (P : Server → Type 0) (packets : List PacketDto) (s : Server)
    → P s
    → Keeps P (processing_get_indexes packets s)
unfolding processing_get_indexes
processing_get_indexes-Keeps P packets s h = Ensures-any _ (users_data packets s) _ (λ filled.
    elim filled as (λ o. Keeps P (elim o [ none ↦ refuse s | some list ↦ reply list s ])) [
      | none ↦ h
      | some list ↦ h
    ])
