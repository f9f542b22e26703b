-- ===== src/Server/Replies.antt =====
-- The replies of the handlers of Shark_2_0_CLI/src/server/server_session.cpp.
use chat_bot.Base.{
  ℕ, zero, suc, ◌+◌, ◌/◌, ◌%◌, Bool, true, false, Option, none, some, List, [], ◌∷◌, ltb,
  if◌then◌else◌,
}
use chat_bot.Wire.Reader.{Bytes, Outcome, ok, fault}
use chat_bot.Wire.ClassType
use chat_bot.Server.{Server}
use chat_bot.Server.Dto.{StructDto, PacketDto}
use chat_bot.Server.Fill.{packet_of}

-- What a handler does: it answers true or false, and hands a list to sendPacketListDTO, whose
-- result it does not look at, or hands it none.
pub record Handled : Type 0 where
  pub answer : Bool
  pub sent : Option (List PacketDto)

abbrev pub Handler : Type 0
Handler = Server → Outcome (Handled × Server)

abbrev pub reply : List PacketDto → Server → Outcome (Handled × Server)
reply packets s = ok (record { answer = true; sent = some packets }, s)

abbrev pub refuse : Server → Outcome (Handled × Server)
refuse s = ok (record { answer = false; sent = none }, s)

unfoldable pub responce_packet : ℕ → Bool → ℕ → Bytes → PacketDto
responce_packet request_type req_result any_number any_string =
    packet_of request_type ClassType.responce (
      StructDto.responce
        (record { req_result = req_result; any_number = any_number; any_string = any_string }))

-- std::to_string of a std::size_t, which has at most 20 digits.
unfoldable pub digits : ℕ → ℕ → Bytes → Bytes
digits zero n rest = rest
digits (suc fuel) n rest =
    let more = digits fuel (n / 10) ((48 + n % 10) ∷ rest) in
    if ltb n 10 then (48 + n) ∷ rest else more

unfoldable pub to_string : ℕ → Bytes
unfolding digits
to_string n = digits 20 n []

-- packets[0] and packets[1], which are not tested to be there.
unfoldable pub packet_0 : List PacketDto → Outcome PacketDto
packet_0 [] = fault
packet_0 (p ∷ ps) = ok p

unfoldable pub packet_1 : List PacketDto → Outcome PacketDto
packet_1 [] = fault
packet_1 (p ∷ ps) = packet_0 ps
