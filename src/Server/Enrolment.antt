-- ===== src/Server/Enrolment.antt =====
-- The requests to Shark_2_0_CLI/src/server/server_session.cpp against the directory of its users.
use mathlib.Core.Option
use chat_bot.Base.{
  ℕ, ◌≡◌, refl, ap, inl, inr, not, true, false, ◌&&◌, none, some, Option, List, [], ◌∷◌, arith,
  ◌==◌, Bool-cases, length, if◌then◌else◌,
}
use chat_bot.Base.Maps.{find}
use chat_bot.Wire.ClassType
use chat_bot.Wire.Reader.{Bytes, ok, throw, empty_packet}
use chat_bot.Wire.Dto.{UserLoginPasswordDto}
use chat_bot.Text.Utf8.{same_text}
use chat_bot.Request.{user_heder}
use chat_bot.Chat.Parts.{bytes_key}
use chat_bot.System.{find_user_by_login}
use chat_bot.Server.{Server}
use chat_bot.Server.RequestType
use chat_bot.Server.Dto.{StructDto, PacketDto, UserDto, as_user, as_user_login_password}
use chat_bot.Server.Fill.{user_dto}
use chat_bot.Server.Create.{create_user_srv}
use chat_bot.Server.Replies.{Handled, packet_0}
use chat_bot.Server.Objects.{create_user, processing_create_objects}
use chat_bot.Server.Routing.{
  is_check_or_registry, is_create, routing_requests_from_client, header_checked, handle_packets,
}
use chat_bot.Server.Ends.{Ensures, Ensures-bind, Ensures-any, Ensures-if, Ensures-ok, Ensures-imp}
use chat_bot.Server.Directory.{Directory, directory, enrol, create_user_srv-directory}
use chat_bot.Server.Queries.{Keeps}
use chat_bot.Server.Logins.{HasSameLogins}
use chat_bot.Server.Logins.Handlers.{routing-KeepsLogins}

-- The user that a list of packets behind the header asks to create.
abbrev as_enrolment : Option StructDto → Option UserDto
as_enrolment (some (StructDto.user dto)) = some dto
as_enrolment _ = none

unfoldable pub enrolment : List PacketDto → Option UserDto
enrolment [] = none
enrolment (p ∷ ps) =
    if p.request_type == RequestType.create_user && p.struct_dto_class_type == ClassType.user
    then as_enrolment p.struct_dto_ptr
    else none

-- The directory behind a list of packets.
abbrev pub enrol_all : Option UserDto → Directory → Directory
enrol_all none directory = directory
enrol_all (some dto) directory = enrol dto directory

-- The server's directory is the one of the server before, with the users asked for.
abbrev IsEnrolled : Server → Option UserDto → Server → Type 0
IsEnrolled before asked after =
    (login : Bytes) → directory after login ≡ enrol_all asked (directory before) login

same-IsEnrolled :
    (before after : Server)
    → HasSameLogins before.system after.system
    → IsEnrolled before none after
unfolding directory find_user_by_login
same-IsEnrolled before after same login =
    ap (λ logins. Option.map (λ a. user_dto a true) (find login logins)) same

as_user-IsEnrolled :
    (pointer : Option StructDto) (s : Server)
    → Ensures (λ dto. IsEnrolled s (as_enrolment pointer) (create_user_srv dto s)) (as_user pointer)
unfolding as_user
as_user-IsEnrolled none s = tt
as_user-IsEnrolled (some (StructDto.message dto)) s = tt
as_user-IsEnrolled (some (StructDto.message_chat dto)) s = tt
as_user-IsEnrolled (some (StructDto.chat dto)) s = tt
as_user-IsEnrolled (some (StructDto.user dto)) s = create_user_srv-directory dto s
as_user-IsEnrolled (some (StructDto.user_login dto)) s = tt
as_user-IsEnrolled (some (StructDto.user_login_password dto)) s = tt
as_user-IsEnrolled (some (StructDto.responce dto)) s = tt

create_user-IsEnrolled :
    (p : PacketDto) (ps : List PacketDto) (s : Server)
    → (p.request_type == RequestType.create_user) ≡ true
    → Keeps (IsEnrolled s (enrolment (p ∷ ps))) (create_user (p ∷ ps) s)
unfolding create_user enrolment
create_user-IsEnrolled p ps s asked =
    elim (Bool-cases (p.struct_dto_class_type == ClassType.user)) [
      | inl right ↦
          rw (asked, right, create_user, enrolment)
            (Ensures-bind _ (λ r. IsEnrolled s (as_enrolment p.struct_dto_ptr) r.1)
              (as_user p.struct_dto_ptr) _ (as_user-IsEnrolled p.struct_dto_ptr s)
              (λ dto enrolled. enrolled))
      | inr wrong ↦ rw (asked, wrong, create_user, enrolment) (λ login. refl)
    ]

-- Requests other than CreateUser ask for no user.
enrolment-none :
    (p : PacketDto) (ps : List PacketDto)
    → (p.request_type == RequestType.create_user) ≡ false
    → enrolment (p ∷ ps) ≡ none
unfolding enrolment
enrolment-none p ps differ = rw (differ, enrolment) refl

create_user_groups :
    (t : ℕ)
    → (t == RequestType.create_user) ≡ true
    → (is_check_or_registry t ≡ false) × (is_create t ≡ true)
unfolding is_check_or_registry is_create
create_user_groups t asked = (ground (arith, asked), ground (arith, asked))

routing-create_user :
    (p : PacketDto) (ps : List PacketDto) (s : Server)
    → (p.request_type == RequestType.create_user) ≡ true
    → routing_requests_from_client (p ∷ ps) s ≡ create_user (p ∷ ps) s
unfolding routing_requests_from_client packet_0 processing_create_objects
routing-create_user p ps s asked =
    let (not_check, create) = create_user_groups p.request_type asked in
    rw (not_check, create, asked) refl

routing-IsEnrolled :
    (packets : List PacketDto) (s : Server)
    → Keeps (IsEnrolled s (enrolment packets)) (routing_requests_from_client packets s)
unfolding routing_requests_from_client packet_0
routing-IsEnrolled [] s = tt
routing-IsEnrolled (p ∷ ps) s = elim (Bool-cases (p.request_type == RequestType.create_user)) [
  | inl asked ↦ rw (routing-create_user p ps s asked) (create_user-IsEnrolled p ps s asked)
  | inr differ ↦ rw (enrolment-none p ps differ) (
      Ensures-imp _ _ (routing_requests_from_client (p ∷ ps) s) (λ r. same-IsEnrolled s r.1)
        (routing-KeepsLogins p ps s differ))
]

header_checked-IsEnrolled :
    (header : UserLoginPasswordDto) (packets : List PacketDto) (s : Server)
    → Keeps (IsEnrolled s (enrolment packets)) (header_checked header packets s)
unfolding header_checked
header_checked-IsEnrolled header packets s =
    let P : Handled × Server → Type 0 = λ r. IsEnrolled s (enrolment packets) r.1 in
    Ensures-if P (not (same_text header.passwordhash user_heder)) _ _ tt
      (Ensures-if P (length header.login == 0) _ _ tt (behind packets))
  where
    behind :
        (packets : List PacketDto)
        → Keeps (IsEnrolled s (enrolment packets)) (elim packets [
          | [] ↦ throw empty_packet
          | p ∷ ps ↦ routing_requests_from_client (p ∷ ps) s
        ])
    behind [] = tt
    behind (p ∷ ps) = routing-IsEnrolled (p ∷ ps) s

handle_packets-IsEnrolled :
    (first : PacketDto) (packets : List PacketDto) (s : Server)
    → Keeps (IsEnrolled s (enrolment packets)) (handle_packets (first ∷ packets) s)
unfolding handle_packets
handle_packets-IsEnrolled first packets s =
    let P : Handled × Server → Type 0 = λ r. IsEnrolled s (enrolment packets) r.1 in
    Ensures-if P (not (first.struct_dto_class_type == ClassType.user_login_password)) _ _ tt (
      Ensures-any P (as_user_login_password first.struct_dto_ptr) _
        (λ header. header_checked-IsEnrolled header packets s))

-- A list of packets whose handling returns leaves the directory of the server as it was, except
-- where it asks to create a user: then that user is in the directory afterwards if the login was
-- free, and the directory is as it was if the login was taken. The first packet is the header.
pub handle_packets-directory :
    (first : PacketDto) (packets : List PacketDto) (s after : Server) (handled : Handled)
    → handle_packets (first ∷ packets) s ≡ ok (handled, after)
    → (login : Bytes) → directory after login ≡ enrol_all (enrolment packets) (directory s) login
handle_packets-directory first packets s after handled returned =
    Ensures-ok (λ r. IsEnrolled s (enrolment packets) r.1) (handle_packets (first ∷ packets) s)
      (handled, after) (handle_packets-IsEnrolled first packets s) returned
