-- ===== src/Wire/Tests.antt =====
-- Runs of the wire format, and its theorems at concrete inputs.
use chat_bot.Base.{ℕ, ◌+◌, ◌^◌, ◌≡◌, ◌≢◌, ◌⊎◌, refl, arith, true, none, some, List, [], ◌∷◌}
use chat_bot.Wire.Host.{to_big_endian64, from_big_endian64}
use chat_bot.Wire.Reader.{
  ok, fault, Bytes, pure, fail, call, ◌>>=◌, ◌>>◌, next, need, next_range, next_word, next_long,
  next_bool, read_u32, read_u64, read_string, read_string_unchecked, read_times,
}
use chat_bot.Wire.Dto.{chat, user_login_password, PacketDto}
use chat_bot.Wire.Decode.{
  wrap, read_header, read_struct, after_header, deserialize_from_binary, read_packet, after_count,
  deserialize_packet_list,
}
use chat_bot.Wire.Decode.Account.{
  read_responce, read_user_login, read_user_login_password, read_user,
}
use chat_bot.Wire.Decode.Conversation.{
  read_deleted_id, read_participant, read_chat, read_content, read_chat_message, read_message_chat,
  read_message,
}
use chat_bot.Wire.Encode.{
  word_bytes, long_bytes, bool_byte, each, write_u32, write_u64, write_string, write_responce,
  write_user_login_password, write_participant, write_chat, write_struct, write_body, write_header,
  serialize_to_binary, write_packets, serialize_packet_list,
}
use chat_bot.Wire.Orders.{little_host, swap_bytes}
use chat_bot.Wire.RoundTrip.Structs.{FitsPacket, received_packet}
use chat_bot.Wire.RoundTrip.Packets.{deserialize-serialize}
use chat_bot.Wire.RoundTrip.PacketLists.{deserialize_list-serialize_list}
use chat_bot.Wire.Safety.Headers.{deserialize_within_bounds, deserialize_overruns}
use chat_bot.Wire.Safety.Lists.{deserialize_list_all_or_nothing}
use chat_bot.Wire.Safety.NullPackets.{null_packet_drops_list}

-- Opens the writers, the readers, or both, for the runs below.
open_writers : Unit {0}
unfolding swap_bytes to_big_endian64 word_bytes long_bytes bool_byte each write_u32 write_u64
    write_string write_responce write_user_login_password write_participant write_chat write_struct
    write_body write_header serialize_to_binary write_packets serialize_packet_list
open_writers = tt

open_readers : Unit {0}
unfolding swap_bytes from_big_endian64 pure fail call ◌>>=◌ ◌>>◌ next need next_range next_word
    next_long next_bool read_u32 read_u64 read_string read_string_unchecked read_times wrap
    read_header read_struct after_header deserialize_from_binary read_packet after_count
    deserialize_packet_list read_responce read_user_login read_user_login_password read_user
    read_deleted_id read_participant read_chat read_content read_chat_message read_message_chat
    read_message
open_readers = tt

abbrev login_packet : PacketDto
login_packet = record {
  request_type = 2;
  struct_dto_class_type = 5;
  req_direction = 1;
  struct_dto_ptr = some (user_login_password (record { login = 97 ∷ []; passwordhash = 104 ∷ [] }));
}

-- A participant whose last read message does not fit 32 bits.
abbrev chat_packet : PacketDto
chat_packet = record {
  request_type = 14;
  struct_dto_class_type = 2;
  req_direction = 2;
  struct_dto_ptr = some (
      chat (record {
        chat_id = 7;
        sender_login = 97 ∷ [];
        participants =
            record {
              login = 98 ∷ [];
              last_read_message = 2 ^ 32 + 5;
              deleted_message_ids = 3 ∷ [];
              deleted_from_chat = true;
            }
            ∷ [];
      }));
}

abbrev null_packet : ℕ → PacketDto
null_packet class_type = record {
  request_type = 1;
  struct_dto_class_type = class_type;
  req_direction = 1;
  struct_dto_ptr = none;
}

login_packet-FitsPacket : FitsPacket little_host login_packet
unfolding open_writers
login_packet-FitsPacket = record {
  dto = user_login_password (record { login = 97 ∷ []; passwordhash = 104 ∷ [] });
  points = refl;
  class_fits = refl;
  request_fits = omega arith;
  direction_fits = omega arith;
  dto_fits = omega arith;
  size_fits = omega arith;
}

login_bytes :
    serialize_to_binary little_host login_packet
    ≡ ok (
        2 ∷ 0 ∷ 0 ∷ 0 ∷ 5 ∷ 0 ∷ 0 ∷ 0 ∷ 1 ∷ 0 ∷ 0 ∷ 0 ∷ 1 ∷ 0 ∷ 0 ∷ 0 ∷ 97 ∷ 1 ∷ 0 ∷ 0 ∷ 0 ∷ 104
        ∷ [])
unfolding open_writers
login_bytes = refl

chat_packet_travels :
    (bytes : Bytes) × (serialize_to_binary little_host chat_packet ≡ ok bytes)
    × (deserialize_from_binary little_host 9 bytes ≡ ok (received_packet 9 chat_packet))
unfolding open_writers open_readers
chat_packet_travels = (_, refl, refl)

deserialize-serialize_example :
    (bytes : Bytes) × (serialize_to_binary little_host login_packet ≡ ok bytes)
    × (deserialize_from_binary little_host 9 bytes ≡ ok (received_packet 9 login_packet))
deserialize-serialize_example =
    deserialize-serialize little_host 9 login_packet login_packet-FitsPacket

deserialize_list-serialize_list_example :
    (bytes : Bytes) × (serialize_packet_list little_host (login_packet ∷ login_packet ∷ [])
      ≡ ok bytes)
    × (deserialize_packet_list little_host 9 bytes ≡ ok (login_packet ∷ login_packet ∷ []))
deserialize_list-serialize_list_example =
    deserialize_list-serialize_list little_host 9 (login_packet ∷ login_packet ∷ []) (omega arith)
      (login_packet-FitsPacket, (login_packet-FitsPacket, tt))

-- A header of class 5 with one byte of body, and one of class 2 with one byte of body.
abbrev cut_login : Bytes
cut_login = 2 ∷ 0 ∷ 0 ∷ 0 ∷ 5 ∷ 0 ∷ 0 ∷ 0 ∷ 1 ∷ 0 ∷ 0 ∷ 0 ∷ 1 ∷ []

abbrev cut_chat : Bytes
cut_chat = 14 ∷ 0 ∷ 0 ∷ 0 ∷ 2 ∷ 0 ∷ 0 ∷ 0 ∷ 2 ∷ 0 ∷ 0 ∷ 0 ∷ 7 ∷ []

cut_login_header : read_header little_host cut_login ≡ ok ((2, 5, 1), 1 ∷ [])
unfolding open_readers
cut_login_header = refl

cut_chat_header : read_header little_host cut_chat ≡ ok ((14, 2, 2), 7 ∷ [])
unfolding open_readers
cut_chat_header = refl

deserialize_within_bounds_example : deserialize_from_binary little_host 9 cut_login ≢ fault
deserialize_within_bounds_example =
    deserialize_within_bounds little_host 9 cut_login 2 5 1 (1 ∷ []) cut_login_header (omega arith)

deserialize_overruns_example : deserialize_from_binary little_host 9 cut_chat ≡ fault
deserialize_overruns_example =
    deserialize_overruns little_host 9 cut_chat 14 2 2 (7 ∷ []) cut_chat_header (omega arith)
      (omega arith) (omega arith)

-- A list of one packet whose size is missing.
abbrev cut_list : Bytes
cut_list = 1 ∷ 0 ∷ 0 ∷ 0 ∷ 9 ∷ []

cut_list_is_empty : deserialize_packet_list little_host 9 cut_list ≡ ok []
unfolding open_readers
cut_list_is_empty = refl

deserialize_list_all_or_nothing_example :
    (◌≡◌ {A = List PacketDto} [] [])
    ⊎ ((rest : Bytes) × (read_u32 little_host cut_list ≡ ok (0, rest)))
deserialize_list_all_or_nothing_example =
    deserialize_list_all_or_nothing little_host 9 cut_list [] cut_list_is_empty

null_list_bytes :
    serialize_packet_list little_host (login_packet ∷ null_packet 3 ∷ login_packet ∷ [])
    ≡ ok (
        3 ∷ 0 ∷ 0 ∷ 0 ∷ 22 ∷ 0 ∷ 0 ∷ 0 ∷ 2 ∷ 0 ∷ 0 ∷ 0 ∷ 5 ∷ 0 ∷ 0 ∷ 0 ∷ 1 ∷ 0 ∷ 0 ∷ 0 ∷ 1 ∷ 0 ∷ 0
        ∷ 0 ∷ 97 ∷ 1 ∷ 0 ∷ 0 ∷ 0 ∷ 104 ∷ 12 ∷ 0 ∷ 0 ∷ 0 ∷ 1 ∷ 0 ∷ 0 ∷ 0 ∷ 3 ∷ 0 ∷ 0 ∷ 0 ∷ 1 ∷ 0 ∷ 0
        ∷ 0 ∷ 22 ∷ 0 ∷ 0 ∷ 0 ∷ 2 ∷ 0 ∷ 0 ∷ 0 ∷ 5 ∷ 0 ∷ 0 ∷ 0 ∷ 1 ∷ 0 ∷ 0 ∷ 0 ∷ 1 ∷ 0 ∷ 0 ∷ 0 ∷ 97
        ∷ 1 ∷ 0 ∷ 0 ∷ 0 ∷ 104 ∷ [])
unfolding open_writers
null_list_bytes = refl

null_packet_drops_list_example :
    deserialize_packet_list little_host 9 (
      3 ∷ 0 ∷ 0 ∷ 0 ∷ 22 ∷ 0 ∷ 0 ∷ 0 ∷ 2 ∷ 0 ∷ 0 ∷ 0 ∷ 5 ∷ 0 ∷ 0 ∷ 0 ∷ 1 ∷ 0 ∷ 0 ∷ 0 ∷ 1 ∷ 0 ∷ 0 ∷ 0
      ∷ 97 ∷ 1 ∷ 0 ∷ 0 ∷ 0 ∷ 104 ∷ 12 ∷ 0 ∷ 0 ∷ 0 ∷ 1 ∷ 0 ∷ 0 ∷ 0 ∷ 3 ∷ 0 ∷ 0 ∷ 0 ∷ 1 ∷ 0 ∷ 0 ∷ 0
      ∷ 22 ∷ 0 ∷ 0 ∷ 0 ∷ 2 ∷ 0 ∷ 0 ∷ 0 ∷ 5 ∷ 0 ∷ 0 ∷ 0 ∷ 1 ∷ 0 ∷ 0 ∷ 0 ∷ 1 ∷ 0 ∷ 0 ∷ 0 ∷ 97 ∷ 1 ∷ 0
      ∷ 0 ∷ 0 ∷ 104 ∷ [])
    ≡ ok []
null_packet_drops_list_example =
    null_packet_drops_list little_host 9 (login_packet ∷ []) (login_packet ∷ []) (null_packet 3) _
      (login_packet-FitsPacket, tt) refl (omega arith) (omega arith) null_list_bytes
