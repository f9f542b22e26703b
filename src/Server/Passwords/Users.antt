-- ===== src/Server/Passwords/Users.antt =====
-- What the answers of Shark_2_0_CLI/src/server/server_session.cpp may carry, and the users that it sends.
use chat_bot.Base.{
  ℕ, ◌≡◌, ◌⊎◌, subst, sym, refl, inl, inr, not, false, Option, none, some, List, [], ◌∷◌, All, ◌==◌,
  Option-cases,
}
use chat_bot.Wire.ClassType
use chat_bot.Wire.Reader.{Bytes, Outcome, ok}
use chat_bot.System.{Account, find_user_by_login, find_user_by_text_part}
use chat_bot.Server.{Server}
use chat_bot.Server.RequestType
use chat_bot.Server.Dto.{UserDto, StructDto, PacketDto, as_user_login}
use chat_bot.Server.Fill.{user_dto, fill_for_send_user_dto, packet_of}
use chat_bot.Server.Replies.{Handled, reply, refuse, to_string, packet_0}
use chat_bot.Server.Registry.{user_packets, logins_of, find_user_by_part}
use chat_bot.Server.Routing.{users_data, processing_get_indexes}
use chat_bot.Server.Ends.{Ensures, Ensures-bind, Ensures-any, Ensures-if}

-- The login in the structure of a request.
abbrev pub asked_login : Option StructDto → Bytes
asked_login (some (StructDto.user_login dto)) = dto.login
asked_login (some (StructDto.user_login_password dto)) = dto.login
asked_login _ = []

-- No text, "@", the login of the request, or a number.
abbrev pub IsPlainText : Option StructDto → Bytes → Type 0
IsPlainText request text =
    (text ≡ [])
    ⊎ ((text ≡ 64 ∷ []) ⊎ ((text ≡ asked_login request) ⊎ ((n : ℕ) × (text ≡ to_string n))))

-- A user that the server knows, with "-1" for the password.
abbrev pub IsStripped : Server → UserDto → Type 0
IsStripped s dto =
    (login : Bytes) × (account : Account) × (find_user_by_login login s.system ≡ some account)
    × (dto ≡ record {
      login = account.login;
      passwordhash = 45 ∷ 49 ∷ [];
      user_name = account.user_name;
      email = account.email;
      phone = account.phone;
    })

-- The structure of an answer: a user without the password, or a response with a plain text. No
-- other class is sent.
abbrev pub HidesIn : Server → Option StructDto → Option StructDto → Type 0
HidesIn s request (some (StructDto.user dto)) = IsStripped s dto
HidesIn s request (some (StructDto.responce dto)) = IsPlainText request dto.any_string
HidesIn s request _ = ⊥

abbrev pub Hides : Server → Option StructDto → List PacketDto → Type 0
Hides s request = All (λ p. HidesIn s request p.struct_dto_ptr)

-- What is handed to sendPacketListDTO, if anything is.
abbrev pub HidesAll : Server → Option StructDto → Option (List PacketDto) → Type 0
HidesAll s request none = Unit
HidesAll s request (some packets) = Hides s request packets

abbrev pub HidesReply : Server → Option StructDto → Outcome (Handled × Server) → Type 0
HidesReply s request = Ensures (λ r. HidesAll s request r.0.sent)

fill_for_send_user_dto-IsStripped :
    (login : Bytes) (s : Server) → Ensures (IsStripped s) (fill_for_send_user_dto login false s)
unfolding fill_for_send_user_dto user_dto
fill_for_send_user_dto-IsStripped login s =
    elim (Option-cases (find_user_by_login login s.system)) [
      | inl unknown ↦ rw (unknown, fill_for_send_user_dto) tt
      | inr (account, known) ↦
          subst (Ensures (IsStripped s)) (sym (filled account known)) (login, account, known, refl)
    ]
  where
    filled :
        (account : Account)
        → find_user_by_login login s.system ≡ some account
        → fill_for_send_user_dto login false s ≡ ok (user_dto account false)
    filled account known = rw (known, fill_for_send_user_dto) refl

user_packets-Hides :
    (t : ℕ) (logins : List Bytes) (s : Server) (request : Option StructDto)
    → Ensures (Hides s request) (user_packets t logins s)
unfolding user_packets packet_of
user_packets-Hides t [] s request = tt
user_packets-Hides t (login ∷ logins) s request =
    Ensures-bind _ _ (fill_for_send_user_dto login false s) _
      (fill_for_send_user_dto-IsStripped login s)
      (λ dto hidden.
        Ensures-bind _ _ (user_packets t logins s) _ (user_packets-Hides t logins s request)
          (λ packets later. (hidden, later)))

pub find_user_by_part-HidesReply :
    (packets : List PacketDto) (s : Server) (request : Option StructDto)
    → HidesReply s request (find_user_by_part packets s)
unfolding find_user_by_part
find_user_by_part-HidesReply packets s request = Ensures-any _ (packet_0 packets) _ (λ packet.
    Ensures-any _ (as_user_login packet.struct_dto_ptr) _ (λ dto.
      let logins = logins_of (find_user_by_text_part dto.login s.system) in
      Ensures-bind _ _ (user_packets RequestType.find_user_by_part logins s) _
        (user_packets-Hides RequestType.find_user_by_part logins s request)
        (λ found hidden. hidden)))

users_data-HidesAll :
    (packets : List PacketDto) (s : Server) (request : Option StructDto)
    → Ensures (HidesAll s request) (users_data packets s)
unfolding users_data packet_of
users_data-HidesAll [] s request = tt
users_data-HidesAll (p ∷ ps) s request =
    Ensures-if (HidesAll s request) (not (p.request_type == RequestType.get_users_data)) _ _ tt (
      Ensures-any _ (as_user_login p.struct_dto_ptr) _ (λ dto.
        elim (Option-cases (find_user_by_login dto.login s.system)) [
          | inl unknown ↦ rw unknown tt
          | inr (account, known) ↦ rw known (
              Ensures-bind _ _ (fill_for_send_user_dto account.login false s) _
                (fill_for_send_user_dto-IsStripped account.login s)
                (λ user hidden.
                  Ensures-bind _ _ (users_data ps s) _ (users_data-HidesAll ps s request)
                    (λ later rest. added later user hidden rest)))
        ]))
  where
    added :
        (later : Option (List PacketDto)) (user : UserDto)
        → IsStripped s user
        → HidesAll s request later
        → HidesAll s request (elim later [
          | none ↦ none
          | some list ↦
              some
                (packet_of RequestType.get_users_data ClassType.user (StructDto.user user) ∷ list)
        ])
    added none user hidden rest = tt
    added (some list) user hidden rest = (hidden, rest)

pub processing_get_indexes-HidesReply :
    (packets : List PacketDto) (s : Server) (request : Option StructDto)
    → HidesReply s request (processing_get_indexes packets s)
unfolding processing_get_indexes
processing_get_indexes-HidesReply packets s request =
    Ensures-bind (HidesAll s request) _ (users_data packets s) _
      (users_data-HidesAll packets s request) sent
  where
    sent :
        (filled : Option (List PacketDto))
        → HidesAll s request filled
        → HidesReply s request (elim filled [ none ↦ refuse s | some list ↦ reply list s ])
    sent none hidden = tt
    sent (some list) hidden = hidden
