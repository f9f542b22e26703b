-- ===== src/Request/Tests.antt =====
-- Tests of requests, and the theorems at concrete requests.
use chat_bot.Base.{ℕ, ◌≡◌, ◌≢◌, refl, none, some, List, [], ◌∷◌, map, arith}
use chat_bot.Wire.ClassType
use chat_bot.Wire.Orders.{swap_bytes, little_host}
use chat_bot.Wire.Reader.{Bytes, Outcome, ok, fault}
use chat_bot.Wire.Dto.{PacketDto, user_login_password, user_login, UserLoginPasswordDto}
use chat_bot.Wire.Encode.{
  each, serialize_packet_list, word_bytes, write_u32, write_string, write_user_login_password,
  write_user_login, write_struct, write_header,
}
use chat_bot.Wire.RoundTrip.Structs.{received_packet, FitsPacket}
use chat_bot.Request.{
  user_heder, header_login, header_packet, send_packets, parsed, check_login, check_header,
  parse_packets, parse_incoming, parse_incoming-send_packets,
}
use chat_bot.Request.Accepts.{parse_packets-eq-ok}
use chat_bot.Request.ShortHeader.{cut_list, parse_incoming-short_header}
use chat_bot.Text.Utf8.{same_text}

-- A request for the login "b".
abbrev question : PacketDto
question = record {
  request_type = 3;
  struct_dto_class_type = 4;
  req_direction = 1;
  struct_dto_ptr = some (user_login (record { login = 98 ∷ [] }));
}

question-FitsPacket : FitsPacket little_host question
unfolding swap_bytes word_bytes write_u32 write_string write_user_login write_struct write_header
question-FitsPacket = record {
  dto = user_login (record { login = 98 ∷ [] });
  points = refl;
  class_fits = refl;
  request_fits = omega arith;
  direction_fits = omega arith;
  dto_fits = omega arith;
  size_fits = omega arith;
}

header-FitsPacket : FitsPacket little_host (header_packet (some (97 ∷ [])) 7)
unfolding swap_bytes word_bytes write_u32 write_string write_user_login_password write_struct
    write_header header_packet header_login
header-FitsPacket = record {
  dto = user_login_password (record { login = 97 ∷ []; passwordhash = user_heder });
  points = refl;
  class_fits = refl;
  request_fits = omega arith;
  direction_fits = omega arith;
  dto_fits = omega arith;
  size_fits = omega arith;
}

-- The request type 3 of the question arrives, not the 7 of the header.
parse_incoming-send_packets_example :
    (bytes : Bytes) × (serialize_packet_list little_host
        (send_packets (some (97 ∷ [])) 7 (question ∷ []))
      ≡ ok bytes)
    × (parse_incoming little_host 9 bytes ≡ ok (3, map (received_packet 9) (question ∷ [])))
unfolding send_packets
parse_incoming-send_packets_example =
    parse_incoming-send_packets little_host 9 (some (97 ∷ [])) 7 question []
      (λ e. absurd (ground (arith, e))) (omega arith) (header-FitsPacket, (question-FitsPacket, tt))

question_parsed :
    parse_packets (header_packet (some (97 ∷ [])) 7 ∷ question ∷ []) ≡ ok (3, question ∷ [])
unfolding parse_packets check_header check_login parsed header_packet header_login same_text
question_parsed = refl

-- A header without a structure is dereferenced.
null_header :
    parse_packets (
      record {
        request_type = 7;
        struct_dto_class_type = ClassType.user_login_password;
        req_direction = 1;
        struct_dto_ptr = none;
      }
      ∷ question
      ∷ [])
    ≡ fault
unfolding parse_packets check_header
null_header = refl

parse_packets-eq-ok_example :
    (5 ≡ ClassType.user_login_password)
    × ((login : UserLoginPasswordDto) × ((header_packet (some (97 ∷ [])) 7).struct_dto_ptr
          ≡ some (user_login_password login))
        × (login.passwordhash ≡ user_heder)
        × (login.login ≢ []))
    × ((first : PacketDto) × (rest : List PacketDto) × (question ∷ [] ≡ first ∷ rest)
        × (◌≡◌ {A = Outcome (ℕ × List PacketDto)}
            (ok (3, question ∷ []))
            (ok (first.request_type, first ∷ rest))))
unfolding header_packet
parse_packets-eq-ok_example =
    parse_packets-eq-ok (header_packet (some (97 ∷ [])) 7) (question ∷ []) (3, question ∷ [])
      question_parsed

-- A header packet whose body is one byte, in front of the question.
abbrev short_header : PacketDto
short_header = record {
  request_type = 7;
  struct_dto_class_type = ClassType.user_login_password;
  req_direction = 1;
  struct_dto_ptr = none;
}

parse_incoming-short_header_example :
    parse_incoming little_host 9 (cut_list little_host short_header (0 ∷ []) (question ∷ []))
    ≡ fault
parse_incoming-short_header_example =
    parse_incoming-short_header little_host 9 short_header (0 ∷ []) (question ∷ []) refl
      (omega arith) (omega arith) (omega arith) (omega arith) (omega arith)
      (question-FitsPacket, tt)

short_header_bytes :
    cut_list little_host short_header (0 ∷ []) []
    ≡ 1 ∷ 0 ∷ 0 ∷ 0 ∷ 13 ∷ 0 ∷ 0 ∷ 0 ∷ 7 ∷ 0 ∷ 0 ∷ 0 ∷ 5 ∷ 0 ∷ 0 ∷ 0 ∷ 1 ∷ 0 ∷ 0 ∷ 0 ∷ 0 ∷ []
unfolding swap_bytes word_bytes write_u32 write_header each
short_header_bytes = refl
