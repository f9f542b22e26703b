-- ===== src/Server/Passwords.antt =====
-- What the replies of Shark_2_0_CLI/src/server/server_session.cpp carry.
pub mod Users
use chat_bot.Base.{
  ℕ, ◌+◌, ◌≡◌, refl, inl, inr, not, false, Option, none, some, List, [], ◌∷◌, All, ◌==◌,
  Option-cases,
}
use chat_bot.Wire.ClassType
use chat_bot.Wire.Reader.{Bytes, Outcome, ok, throw, fault}
use chat_bot.System.{find_user_by_login, find_user_by_text_part, get_chat_by_id}
use chat_bot.Server.{Server, deref, lock_chat}
use chat_bot.Server.RequestType
use chat_bot.Server.Dto.{
  UserDto, StructDto, PacketDto, as_user, as_user_login, as_user_login_password, as_message,
  as_chat, as_message_chat,
}
use chat_bot.Server.Fill.{no_password, user_dto, fill_for_send_user_dto, packet_of}
use chat_bot.Server.Create.{
  create_new_chat_srv, create_new_message_srv, create_new_message_chat_srv,
}
use chat_bot.Server.Replies.{Handled, reply, refuse, responce_packet, packet_0, packet_1}
use chat_bot.Server.Registry.{
  check_login, check_log_password, user_packets, logins_of, find_user_by_part,
  set_last_read_message, processing_check_and_registry_user,
}
use chat_bot.Server.Objects.{
  create_user, first_message_id, create_messages, create_chat, create_message,
  processing_create_objects,
}
use chat_bot.Server.Routing.{
  users_data, processing_get_indexes, ignored, is_check_or_registry, is_create,
  routing_requests_from_client,
}
use chat_bot.Server.Ends.{Ensures, Ensures-bind, Ensures-any, Ensures-if, Ensures-ok}
use Users.{
  asked_login, HidesAll, HidesReply, find_user_by_part-HidesReply,
  processing_get_indexes-HidesReply,
}

-- What a request that is read as one of a login asks for.
as_user_login-asked :
    (request : Option StructDto)
    → Ensures (λ dto. dto.login ≡ asked_login request) (as_user_login request)
unfolding as_user_login
as_user_login-asked none = tt
as_user_login-asked (some (StructDto.message dto)) = tt
as_user_login-asked (some (StructDto.message_chat dto)) = tt
as_user_login-asked (some (StructDto.chat dto)) = tt
as_user_login-asked (some (StructDto.user dto)) = tt
as_user_login-asked (some (StructDto.user_login dto)) = refl
as_user_login-asked (some (StructDto.user_login_password dto)) = tt
as_user_login-asked (some (StructDto.responce dto)) = tt

as_user_login_password-asked :
    (request : Option StructDto)
    → Ensures (λ dto. dto.login ≡ asked_login request) (as_user_login_password request)
unfolding as_user_login_password
as_user_login_password-asked none = tt
as_user_login_password-asked (some (StructDto.message dto)) = tt
as_user_login_password-asked (some (StructDto.message_chat dto)) = tt
as_user_login_password-asked (some (StructDto.chat dto)) = tt
as_user_login_password-asked (some (StructDto.user dto)) = tt
as_user_login_password-asked (some (StructDto.user_login dto)) = tt
as_user_login_password-asked (some (StructDto.user_login_password dto)) = refl
as_user_login_password-asked (some (StructDto.responce dto)) = tt

check_login-HidesReply :
    (p : PacketDto) (ps : List PacketDto) (s : Server)
    → HidesReply s p.struct_dto_ptr (check_login (p ∷ ps) s)
unfolding check_login responce_packet packet_of packet_0
check_login-HidesReply p ps s =
    Ensures-bind _ _ (as_user_login p.struct_dto_ptr) _ (as_user_login-asked p.struct_dto_ptr)
      (λ dto asked. elim (Option-cases (find_user_by_login dto.login s.system)) [
        | inl unknown ↦ rw unknown (inr (inl refl), tt)
        | inr (account, known) ↦ rw known (inr (inr (inl asked)), tt)
      ])

check_log_password-HidesReply :
    (p : PacketDto) (ps : List PacketDto) (s : Server)
    → HidesReply s p.struct_dto_ptr (check_log_password (p ∷ ps) s)
unfolding check_log_password responce_packet packet_of packet_0
check_log_password-HidesReply p ps s =
    Ensures-bind _ _ (as_user_login_password p.struct_dto_ptr) _
      (as_user_login_password-asked p.struct_dto_ptr)
      (λ dto asked. elim (Option-cases (find_user_by_login dto.login s.system)) [
        | inl unknown ↦ rw unknown (inr (inl refl), tt)
        | inr (account, known) ↦ rw known (inr (inr (inl asked)), tt)
      ])

set_last_read_message-HidesReply :
    (packets : List PacketDto) (s old : Server) (request : Option StructDto)
    → HidesReply old request (set_last_read_message packets s)
unfolding set_last_read_message responce_packet packet_of
set_last_read_message-HidesReply packets s old request =
    Ensures-any _ (packet_0 packets) _ (λ packet.
      Ensures-any _ (as_message packet.struct_dto_ptr) _ (λ dto.
        elim (Option-cases (find_user_by_login dto.sender_login s.system)) [
          | inl unknown ↦ rw unknown (inl refl, tt)
          | inr (account, known) ↦ elim (Option-cases (get_chat_by_id dto.chat_id s.system)) [
            | inl missing ↦ rw (known, missing) (inl refl, tt)
            | inr (address, found) ↦
                rw (known, found)
                  (Ensures-any _ (deref (lock_chat address s)) _ (λ chat. (inl refl, tt)))
          ]
        ]))

processing_check_and_registry_user-HidesReply :
    (t : ℕ) (p : PacketDto) (ps : List PacketDto) (s : Server)
    → (t == RequestType.register_user) ≡ false
    → HidesReply s p.struct_dto_ptr (processing_check_and_registry_user t (p ∷ ps) s)
unfolding processing_check_and_registry_user
processing_check_and_registry_user-HidesReply t p ps s differ =
    let P : Handled × Server → Type 0 = λ r. HidesAll s p.struct_dto_ptr r.0.sent in
    Ensures-if P (t == RequestType.check_login) _ _ (check_login-HidesReply p ps s) (
      Ensures-if P (t == RequestType.check_log_password) _ _ (check_log_password-HidesReply p ps s)
        (rw differ (
          Ensures-if P (t == RequestType.find_user_by_part) _ _
            (find_user_by_part-HidesReply (p ∷ ps) s p.struct_dto_ptr)
            (Ensures-if P (t == RequestType.set_last_read_message) _ _
              (set_last_read_message-HidesReply (p ∷ ps) s s p.struct_dto_ptr) tt))))

create_user-HidesReply :
    (packets : List PacketDto) (s old : Server) (request : Option StructDto)
    → HidesReply old request (create_user packets s)
unfolding create_user responce_packet packet_of
create_user-HidesReply [] s old request = tt
create_user-HidesReply (packet ∷ packets) s old request =
    let P : Handled × Server → Type 0 = λ r. HidesAll old request r.0.sent in
    Ensures-if P (not (packet.struct_dto_class_type == ClassType.user)) _ _ tt
      (Ensures-any P (as_user packet.struct_dto_ptr) _ (λ dto. (inl refl, tt)))

create_messages-HidesReply :
    (id address : ℕ) (packets : List PacketDto) (s old : Server) (request : Option StructDto)
    → HidesReply old request (create_messages id address packets s)
unfolding create_messages responce_packet packet_of
create_messages-HidesReply id address packets s old request =
    Ensures-any _ (packet_1 packets) _ (λ packet.
      Ensures-any _ (as_message_chat packet.struct_dto_ptr) _ (λ dto.
        Ensures-any _ (create_new_message_chat_srv id dto.messages s) _ (λ after.
          Ensures-any _ (deref (lock_chat address after)) _ (λ chat.
            Ensures-any _ (first_message_id chat) _
              (λ first. (inr (inr (inr (first, refl))), tt))))))

create_chat-HidesReply :
    (packets : List PacketDto) (s old : Server) (request : Option StructDto)
    → HidesReply old request (create_chat packets s)
unfolding create_chat
create_chat-HidesReply packets s old request =
    let P : Handled × Server → Type 0 = λ r. HidesAll old request r.0.sent in
    Ensures-any P (packet_0 packets) _ (λ packet.
      Ensures-any P (as_chat packet.struct_dto_ptr) _ (λ dto.
        Ensures-any P
          (create_new_chat_srv s.next_address dto (record s { next_address = s.next_address + 1 }))
          _
          (λ r.
            Ensures-if P (r.0 == 0) _ _ tt
              (create_messages-HidesReply r.0 s.next_address packets r.1 old request))))

create_message-HidesReply :
    (packets : List PacketDto) (s old : Server) (request : Option StructDto)
    → HidesReply old request (create_message packets s)
unfolding create_message responce_packet packet_of
create_message-HidesReply packets s old request =
    let P : Handled × Server → Type 0 = λ r. HidesAll old request r.0.sent in
    Ensures-any P (packet_0 packets) _ (λ packet.
      Ensures-any P (as_message packet.struct_dto_ptr) _ (λ dto.
        Ensures-any P (create_new_message_srv dto s) _
          (λ r. Ensures-if P (r.0 == 0) _ _ tt (inr (inr (inr (r.0, refl))), tt))))

processing_create_objects-HidesReply :
    (t : ℕ) (packets : List PacketDto) (s old : Server) (request : Option StructDto)
    → HidesReply old request (processing_create_objects t packets s)
unfolding processing_create_objects
processing_create_objects-HidesReply t packets s old request =
    let P : Handled × Server → Type 0 = λ r. HidesAll old request r.0.sent in
    Ensures-if P (t == RequestType.create_user) _ _ (create_user-HidesReply packets s old request) (
      Ensures-if P (t == RequestType.create_chat) _ _ (create_chat-HidesReply packets s old request)
        (Ensures-if P (t == RequestType.create_message) _ _
          (create_message-HidesReply packets s old request) tt))

ignored-HidesReply :
    (s : Server) (request : Option StructDto) (m : Outcome (Handled × Server))
    → HidesReply s request m
    → HidesReply s request (ignored m)
ignored-HidesReply s request (ok (handled, after)) h = h
ignored-HidesReply s request (throw e) h = tt
ignored-HidesReply s request fault h = tt

-- Every packet of an answer to a request other than RegisterUser is either a user that the server
-- knows, with "-1" in place of the hash of the password, or a response whose text is empty, "@", the
-- login in the request or a number. Packets of other classes are not sent. The request is the first
-- packet behind the header.
pub routing_requests_from_client-HidesAll :
    (p : PacketDto) (ps : List PacketDto) (s after : Server) (handled : Handled)
    → (p.request_type == RequestType.register_user) ≡ false
    → routing_requests_from_client (p ∷ ps) s ≡ ok (handled, after)
    → HidesAll s p.struct_dto_ptr handled.sent
unfolding routing_requests_from_client packet_0
routing_requests_from_client-HidesAll p ps s after handled differ returned =
    let t = p.request_type in
    let request = p.struct_dto_ptr in
    let P : Handled × Server → Type 0 = λ r. HidesAll s request r.0.sent in
    Ensures-ok P (routing_requests_from_client (p ∷ ps) s) (handled, after)
      (Ensures-if P (is_check_or_registry t) _ _
        (ignored-HidesReply s request _
          (processing_check_and_registry_user-HidesReply t p ps s differ))
        (Ensures-if P (is_create t) _ _
          (processing_create_objects-HidesReply t (p ∷ ps) s s request)
          (Ensures-if P (t == RequestType.get_users_data) _ _
            (ignored-HidesReply s request _ (processing_get_indexes-HidesReply (p ∷ ps) s request))
            tt)))
      returned
