-- ===== src/Request/ShortHeader.antt =====
-- A header packet that is cut short, through deSerializePacketList of
-- Shark_3_0_Qt/src/core/system/serialize.cpp and ParseIncoming of
-- Shark_3_0_Qt/src/server/packet_parser/packet_parser.cpp.
use chat_bot.Base.{
  ℕ, suc, ◌^◌, ◌≤◌, ◌<◌, ◌≡◌, refl, arith, none, List, [], ◌∷◌, ◌++◌, map, All, length,
  length-append, append-nil, le→ltb, lt→ltb, ◌∙◌,
}
use chat_bot.Wire.ClassType
use chat_bot.Wire.Host.{Host}
use chat_bot.Wire.Reader.{
  Exception, wrong_packet_size, Reader, ok, throw, fault, Bytes, ◌>>=◌, ◌>>◌, need, read_string,
  read_times,
}
use chat_bot.Wire.Dto.{PacketDto, user_login_password}
use chat_bot.Wire.Decode.{
  wrap, read_struct, after_header, deserialize_from_binary, read_packet, deserialize_packet_list,
}
use chat_bot.Wire.Decode.Account.{read_user_login_password}
use chat_bot.Wire.Encode.{each, write_u32, write_header}
use chat_bot.Wire.RoundTrip.Rules.{
  Reads, Reads-bind, Reads-last, Reads-last_call, Reads-need, Reads-times,
}
use chat_bot.Wire.RoundTrip.Numbers.{write_u32_leads, Reads-u32, Reads-range}
use chat_bot.Wire.RoundTrip.Structs.{received_packet, FitsPacket}
use chat_bot.Wire.RoundTrip.Packets.{length-write_header, Reads-header}
use chat_bot.Wire.RoundTrip.PacketLists.{frame, Reads-packet, after_count_ok}
use chat_bot.Request.{parse_packets, check_header, parse_incoming, parse_incoming-eq-ok}

-- A packet without its structure.
abbrev nulled : PacketDto → PacketDto
nulled p = record p { struct_dto_ptr = none }

bind-throw {ℓ κ} :
    {A : Type ℓ} {B : Type κ} {e : Exception} (m : Reader A) (f : A → Reader B) (bytes : Bytes)
    → m bytes ≡ throw e
    → (m >>= f) bytes ≡ throw e
unfolding ◌>>=◌
bind-throw m f bytes h = rw (h, ◌>>=◌)

need-throw : (n : ℕ) (bytes : Bytes) → length bytes < n → need n bytes ≡ throw wrong_packet_size
unfolding need
need-throw n bytes short = rw (lt→ltb (length bytes) n short) refl

module _ (host : Host) where
  -- A packet whose body is cut, behind its size.
  abbrev pub cut_frame : PacketDto → Bytes → Bytes
  cut_frame p body =
      write_u32 host (length (write_header host p ++ body)) ++ (write_header host p ++ body)

  read_login_cut :
      (unset : ℕ) (body : Bytes)
      → length body < 4
      → wrap (read_user_login_password host) user_login_password body ≡ throw wrong_packet_size
  unfolding wrap read_user_login_password read_string ◌>>◌
  read_login_cut unset body short =
      bind-throw _ _ body (bind-throw _ _ body (bind-throw _ _ body (need-throw 4 body short)))

  read_struct_cut :
      (unset class_type : ℕ) (body : Bytes)
      → class_type ≡ ClassType.user_login_password
      → length body < 4
      → read_struct host unset class_type body ≡ throw wrong_packet_size
  unfolding read_struct
  read_struct_cut unset class_type body class short = rw class (read_login_cut unset body short)

  after_header_cut :
      (unset request class_type direction : ℕ) (body : Bytes)
      → class_type ≡ ClassType.user_login_password
      → length body < 4
      → after_header host unset (ok ((request, class_type, direction), body))
        ≡ ok (record {
          request_type = request;
          struct_dto_class_type = class_type;
          req_direction = direction;
          struct_dto_ptr = none;
        })
  unfolding after_header
  after_header_cut unset request class_type direction body class short =
      rw (read_struct_cut unset class_type body class short, after_header)

  deserialize_cut :
      (unset : ℕ) (p : PacketDto) (body : Bytes)
      → p.struct_dto_class_type ≡ ClassType.user_login_password
      → p.request_type < 2 ^ 32
      → p.req_direction < 2 ^ 32
      → 0 < length body
      → length body < 4
      → deserialize_from_binary host unset (write_header host p ++ body) ≡ ok (nulled p)
  unfolding deserialize_from_binary
  deserialize_cut unset p body class request direction more short =
      let long : 13 ≤ length (write_header host p ++ body) =
        omega (arith, length-append (write_header host p) body, length-write_header host p, more) in
      let small : p.struct_dto_class_type < 2 ^ 32 = omega (arith, class) in
      rw (le→ltb _ 13 long, (Reads-header host p request small direction).run body)
        (after_header_cut unset p.request_type p.struct_dto_class_type p.req_direction body class
          short)

  Reads-cut :
      (unset : ℕ) (p : PacketDto) (body : Bytes)
      → p.struct_dto_class_type ≡ ClassType.user_login_password
      → p.request_type < 2 ^ 32
      → p.req_direction < 2 ^ 32
      → 0 < length body
      → length body < 4
      → Reads (read_packet host unset) (cut_frame p body) (nulled p)
  unfolding read_packet
  Reads-cut unset p body class request direction more short =
      let all = write_header host p ++ body in
      let small : length all < 2 ^ 32 =
        omega
          (arith, length-append (write_header host p) body, length-write_header host p, short) in
      Reads-need 4 (write_u32_leads host (length all) all) (
        Reads-bind _ (Reads-u32 host (length all) small) (
          Reads-need (length all) (omega arith) (
            Reads-last_call (deserialize_from_binary host unset) (Reads-range all)
              (deserialize_cut unset p body class request direction more short))))

  -- The packets of a list whose first packet is cut.
  abbrev pub cut_list : PacketDto → Bytes → List PacketDto → Bytes
  cut_list p body ps =
      write_u32 host (length (p ∷ ps)) ++ (cut_frame p body ++ each (frame host) ps)

  deserialize_cut_list :
      (unset : ℕ) (p : PacketDto) (body : Bytes) (ps : List PacketDto)
      → Reads (read_packet host unset) (cut_frame p body) (nulled p)
      → length (p ∷ ps) < 2 ^ 32
      → All (FitsPacket host) ps
      → deserialize_packet_list host unset (cut_list p body ps)
        ≡ ok (nulled p ∷ map (received_packet unset) ps)
  unfolding deserialize_packet_list read_times
  deserialize_cut_list unset p body ps cut few all =
      let frames = cut_frame p body ++ each (frame host) ps in
      let loop : Reads (read_times (suc (length ps)) (read_packet host unset)) frames
          (nulled p ∷ map (received_packet unset) ps) =
        Reads-bind _ cut (
          Reads-last _ (
            Reads-times (read_packet host unset) (frame host) (received_packet unset)
              (FitsPacket host) (Reads-packet host unset) ps all)) in
      rw
        (
          le→ltb _ 4 (write_u32_leads host (length (p ∷ ps)) frames),
          (Reads-u32 host (length (p ∷ ps)) few).run frames,
        )
        (after_count_ok host unset (length (p ∷ ps)) _ [] _ (rw append-nil at (loop.run [])))

  null_header :
      (unset : ℕ) (p : PacketDto) (packets : List PacketDto)
      → p.struct_dto_class_type ≡ ClassType.user_login_password
      → parse_packets (nulled p ∷ packets) ≡ fault
  unfolding parse_packets check_header
  null_header unset p packets class = rw class refl

  -- Whatever the byte order of the host, a header packet of class userLoginPasswordDTO whose body
  -- has one to three bytes makes ParseIncoming dereference a null pointer: for any request type and
  -- direction in it, any such body, and any packets behind it that fit, fewer than 2 ^ 32 in all.
  pub parse_incoming-short_header :
      (unset : ℕ) (p : PacketDto) (body : Bytes) (ps : List PacketDto)
      → p.struct_dto_class_type ≡ ClassType.user_login_password
      → p.request_type < 2 ^ 32
      → p.req_direction < 2 ^ 32
      → 0 < length body
      → length body < 4
      → length (p ∷ ps) < 2 ^ 32
      → All (FitsPacket host) ps
      → parse_incoming host unset (cut_list p body ps) ≡ fault
  parse_incoming-short_header unset p body ps class request direction more short few fits =
      let cut = Reads-cut unset p body class request direction more short in
      let packets = nulled p ∷ map (received_packet unset) ps in
      parse_incoming-eq-ok host unset (cut_list p body ps) packets
        (deserialize_cut_list unset p body ps cut few fits)
      ∙ null_header unset p (map (received_packet unset) ps) class
