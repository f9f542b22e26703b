-- ===== src/Server/Answers.antt =====
-- How Shark_2_0_CLI/src/server/server_session.cpp answers the requests that check a login, and which
-- requests end it.
use mathlib.Core.Option
use chat_bot.Base.{
  ℕ, suc, ◌≡◌, refl, ap, ◌∙◌, Bool, true, false, Option, none, some, List, [], ◌∷◌, arith, ◌==◌,
  if◌then◌else◌, length,
}
use chat_bot.Wire.ClassType
use chat_bot.Wire.Dto.{UserLoginDto, UserLoginPasswordDto}
use chat_bot.Wire.Reader.{Bytes, throw, empty_packet, header_wrong_data}
use chat_bot.Text.Utf8.{same_text}
use chat_bot.Request.{user_heder}
use chat_bot.Chat.Parts.{bytes_key}
use chat_bot.System.{Account, find_user_by_login}
use chat_bot.Server.{Server}
use chat_bot.Server.RequestType
use chat_bot.Server.Dto.{StructDto, PacketDto, UserDto, as_user_login, as_user_login_password}
use chat_bot.Server.Fill.{packet_of, user_dto, register_on_device_data}
use chat_bot.Server.Replies.{reply, responce_packet, packet_0}
use chat_bot.Server.Registry.{
  check_login, check_log_password, register_user, processing_check_and_registry_user,
}
use chat_bot.Server.Routing.{
  served, terminated, round_of, ignored, is_check_or_registry, routing_requests_from_client,
  header_checked, handle_packets, listening_clients,
}
use chat_bot.Server.Directory.{directory}

-- A first packet as the clients send it, with a login that is not empty.
abbrev pub header_of : ℕ → ℕ → Bytes → PacketDto
header_of request_type b login =
    packet_of request_type ClassType.user_login_password
      (StructDto.user_login_password (record { login = b ∷ login; passwordhash = user_heder }))

not_empty : (n : ℕ) → (suc n == 0) ≡ false
not_empty n = ground arith

header_alone :
    (t b : ℕ) (login : Bytes) (s : Server)
    → listening_clients (header_of t b login ∷ []) s ≡ terminated
unfolding listening_clients handle_packets header_checked packet_of as_user_login_password same_text
    round_of
header_alone t b login s =
    ap (λ empty. round_of s (if empty then throw header_wrong_data else throw empty_packet))
      (not_empty (length login))

-- Behind such a header the request is routed.
pub listening_clients-header :
    (t b : ℕ) (login : Bytes) (p : PacketDto) (ps : List PacketDto) (s : Server)
    → listening_clients (header_of t b login ∷ p ∷ ps) s
      ≡ round_of s (routing_requests_from_client (p ∷ ps) s)
unfolding listening_clients handle_packets header_checked packet_of as_user_login_password same_text
listening_clients-header t b login p ps s =
    ap
      (λ empty.
        round_of s
          (if empty then throw header_wrong_data else routing_requests_from_client (p ∷ ps) s))
      (not_empty (length login))

-- Whether a login and a password are those of a user.
abbrev pub authenticates : Option UserDto → Bytes → Bool
authenticates none passwordhash = false
authenticates (some user) passwordhash = same_text passwordhash user.passwordhash

-- The text of an answer: the login that was asked for, or "@" if it is not in the directory.
abbrev pub answer_text : Option UserDto → Bytes → Bytes
answer_text none login = 64 ∷ []
answer_text (some user) login = login

abbrev pub is_known : Option UserDto → Bool
is_known none = false
is_known (some user) = true

check_log_password-eq-ok :
    (dto : UserLoginPasswordDto) (s : Server)
    → check_log_password
        (packet_of RequestType.check_log_password ClassType.user_login_password
            (StructDto.user_login_password dto)
          ∷ [])
        s
      ≡ reply
          (responce_packet RequestType.check_log_password
              (authenticates (directory s dto.login) dto.passwordhash)
              0
              (answer_text (directory s dto.login) dto.login)
            ∷ [])
          s
unfolding check_log_password packet_0 packet_of as_user_login_password directory user_dto
check_log_password-eq-ok dto s = answered (find_user_by_login dto.login s.system)
  where
    answered :
        (o : Option Account)
        → elim o [
          | some account ↦
              reply
                (responce_packet RequestType.check_log_password
                    (same_text dto.passwordhash account.password_hash)
                    0
                    dto.login
                  ∷ [])
                s
          | none ↦ reply (responce_packet RequestType.check_log_password false 0 (64 ∷ []) ∷ []) s
        ]
          ≡ reply
              (responce_packet RequestType.check_log_password
                  (authenticates (Option.map (λ a. user_dto a true) o) dto.passwordhash)
                  0
                  (answer_text (Option.map (λ a. user_dto a true) o) dto.login)
                ∷ [])
              s
    answered none = refl
    answered (some account) = refl

-- A server that is asked for a login and a password answers with one packet, which is true exactly
-- if the directory has a user of the login with the password, and it stays as it was.
pub listening_clients-check_log_password :
    (t b : ℕ) (login : Bytes) (dto : UserLoginPasswordDto) (s : Server)
    → listening_clients
        (header_of t b login
          ∷ packet_of RequestType.check_log_password ClassType.user_login_password
              (StructDto.user_login_password dto)
          ∷ [])
        s
      ≡ served
          (record {
            answer = true;
            sent = some (
                responce_packet RequestType.check_log_password
                  (authenticates (directory s dto.login) dto.passwordhash)
                  0
                  (answer_text (directory s dto.login) dto.login)
                ∷ []);
          })
          s
unfolding routing_requests_from_client packet_0 packet_of is_check_or_registry
    processing_check_and_registry_user round_of
listening_clients-check_log_password t b login dto s =
    listening_clients-header t b login
      (packet_of RequestType.check_log_password ClassType.user_login_password
        (StructDto.user_login_password dto))
      [] s
    ∙ ap (λ m. round_of s (ignored m)) (check_log_password-eq-ok dto s)

check_login-eq-ok :
    (dto : UserLoginDto) (s : Server)
    → check_login
        (packet_of RequestType.check_login ClassType.user_login (StructDto.user_login dto) ∷ [])
        s
      ≡ reply
          (responce_packet RequestType.check_login
              (is_known (directory s dto.login))
              0
              (answer_text (directory s dto.login) dto.login)
            ∷ [])
          s
unfolding check_login packet_0 packet_of as_user_login directory user_dto
check_login-eq-ok dto s = answered (find_user_by_login dto.login s.system)
  where
    answered :
        (o : Option Account)
        → elim o [
          | some account ↦ reply (responce_packet RequestType.check_login true 0 dto.login ∷ []) s
          | none ↦ reply (responce_packet RequestType.check_login false 0 (64 ∷ []) ∷ []) s
        ]
          ≡ reply
              (responce_packet RequestType.check_login
                  (is_known (Option.map (λ a. user_dto a true) o))
                  0
                  (answer_text (Option.map (λ a. user_dto a true) o) dto.login)
                ∷ [])
              s
    answered none = refl
    answered (some account) = refl

-- A server that is asked for a login answers with one packet, which is true exactly if the
-- directory has a user of the login, and it stays as it was.
pub listening_clients-check_login :
    (t b : ℕ) (login : Bytes) (dto : UserLoginDto) (s : Server)
    → listening_clients
        (header_of t b login
          ∷ packet_of RequestType.check_login ClassType.user_login (StructDto.user_login dto)
          ∷ [])
        s
      ≡ served
          (record {
            answer = true;
            sent = some (
                responce_packet RequestType.check_login
                  (is_known (directory s dto.login))
                  0
                  (answer_text (directory s dto.login) dto.login)
                ∷ []);
          })
          s
unfolding routing_requests_from_client packet_0 packet_of is_check_or_registry
    processing_check_and_registry_user round_of
listening_clients-check_login t b login dto s =
    listening_clients-header t b login
      (packet_of RequestType.check_login ClassType.user_login (StructDto.user_login dto)) [] s
    ∙ ap (λ m. round_of s (ignored m)) (check_login-eq-ok dto s)

-- A request for the data of a login that is not in the directory, or a header with no packet
-- behind it, ends the server.
pub listening_clients-terminated :
    (t b : ℕ) (login : Bytes) (dto : UserLoginDto) (s : Server)
    → directory s dto.login ≡ none
    → (listening_clients
          (header_of t b login
            ∷ packet_of RequestType.register_user ClassType.user_login (StructDto.user_login dto)
            ∷ [])
          s
        ≡ terminated)
      × (listening_clients (header_of t b login ∷ []) s ≡ terminated)
unfolding routing_requests_from_client packet_0 packet_of is_check_or_registry
    processing_check_and_registry_user register_user register_on_device_data as_user_login round_of
    directory user_dto
listening_clients-terminated t b login dto s unknown = (
  listening_clients-header t b login
        (packet_of RequestType.register_user ClassType.user_login (StructDto.user_login dto)) [] s
      ∙ rw (map-none (find_user_by_login dto.login s.system) unknown, register_user) refl,
  header_alone t b login s,
)
  where
    map-none :
        (o : Option Account) → Option.map (λ (a : Account). user_dto a true) o ≡ none → o ≡ none
    map-none none h = refl
    map-none (some a) h = absurd (ground (arith, h))
