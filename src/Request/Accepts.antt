-- ===== src/Request/Accepts.antt =====
-- What PacketParser::ParseIncoming of Shark_3_0_Qt/src/server/packet_parser/packet_parser.cpp accepts.
use chat_bot.Base.{
  ℕ, ◌≡◌, ◌≢◌, refl, sym, ap, inl, inr, Option, none, some, List, [], ◌∷◌, arith, ◌==◌, ==_iff,
  length, Bool-cases,
}
use chat_bot.Wire.ClassType
use chat_bot.Wire.Reader.{ok}
use chat_bot.Wire.Dto.{
  PacketDto, StructDto, user_login_password, message, message_chat, chat, user, user_login,
  responce, UserLoginPasswordDto,
}
use chat_bot.Text.Utf8.{same_text}
use chat_bot.Chat.Parts.{same_text_iff}
use chat_bot.Request.{user_heder, parsed, check_login, check_header, parse_packets}

check_header-eq-ok :
    (o : Option StructDto) (packets : List PacketDto) (r : ℕ × List PacketDto)
    → check_header o packets ≡ ok r
    → (login : UserLoginPasswordDto) × (o ≡ some (user_login_password login))
      × (check_login login packets ≡ ok r)
unfolding check_header
check_header-eq-ok none packets r h = absurd (ground (arith, h))
check_header-eq-ok (some (user_login_password login)) packets r h = (login, refl, h)
check_header-eq-ok (some (message m)) packets r h = absurd (ground (arith, h))
check_header-eq-ok (some (message_chat m)) packets r h = absurd (ground (arith, h))
check_header-eq-ok (some (chat c)) packets r h = absurd (ground (arith, h))
check_header-eq-ok (some (user u)) packets r h = absurd (ground (arith, h))
check_header-eq-ok (some (user_login u)) packets r h = absurd (ground (arith, h))
check_header-eq-ok (some (responce m)) packets r h = absurd (ground (arith, h))

check_login-eq-ok :
    (login : UserLoginPasswordDto) (packets : List PacketDto) (r : ℕ × List PacketDto)
    → check_login login packets ≡ ok r
    → (login.passwordhash ≡ user_heder) × (login.login ≢ []) × (parsed packets ≡ ok r)
unfolding check_login
check_login-eq-ok login packets r h = elim (Bool-cases (same_text login.passwordhash user_heder)) [
  | inl word ↦ elim (Bool-cases (length login.login == 0)) [
    | inl empty ↦ absurd (ground (arith, h, word, empty))
    | inr named ↦ (
      (same_text_iff login.passwordhash user_heder).0 word,
      λ e. absurd (ground (arith, named, ap length e)),
      ground (arith, h, word, named),
    )
  ]
  | inr other ↦ absurd (ground (arith, h, other))
]

parsed-eq-ok :
    (packets : List PacketDto) (r : ℕ × List PacketDto)
    → parsed packets ≡ ok r
    → (first : PacketDto) × (rest : List PacketDto) × (packets ≡ first ∷ rest)
      × (ok r ≡ ok (first.request_type, first ∷ rest))
unfolding parsed
parsed-eq-ok [] r h = absurd (ground (arith, h))
parsed-eq-ok (first ∷ rest) r h = (first, rest, refl, sym h)

-- Where the parser returns, the first packet was one of class userLoginPasswordDTO with the word
-- "UserHeder" and a login that is not empty, and a packet followed it; the result is the packets
-- behind the first, with the request type of the second.
pub parse_packets-eq-ok :
    (header : PacketDto) (packets : List PacketDto) (r : ℕ × List PacketDto)
    → parse_packets (header ∷ packets) ≡ ok r
    → (header.struct_dto_class_type ≡ ClassType.user_login_password)
      × ((login : UserLoginPasswordDto) × (header.struct_dto_ptr ≡ some (user_login_password login))
          × (login.passwordhash ≡ user_heder)
          × (login.login ≢ []))
      × ((first : PacketDto) × (rest : List PacketDto) × (packets ≡ first ∷ rest)
          × (ok r ≡ ok (first.request_type, first ∷ rest)))
unfolding parse_packets
parse_packets-eq-ok header packets r h =
    elim (Bool-cases (header.struct_dto_class_type == ClassType.user_login_password)) [
      | inl class ↦
          let checked : check_header header.struct_dto_ptr packets ≡ ok r =
            ground (arith, h, class) in
          let (login, points, more) = check_header-eq-ok header.struct_dto_ptr packets r checked in
          let (word, named, last) = check_login-eq-ok login packets r more in
          (
            (==_iff header.struct_dto_class_type ClassType.user_login_password).0 class,
            (login, points, word, named),
            parsed-eq-ok packets r last,
          )
      | inr other ↦ absurd (ground (arith, h, other))
    ]
