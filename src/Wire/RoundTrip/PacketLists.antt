-- ===== src/Wire/RoundTrip/PacketLists.antt =====
-- Whole packet lists read back.
use chat_bot.Base.{
  ap, sym, ℕ, ◌^◌, ◌<◌, ◌≡◌, refl, arith, List, [], ◌∷◌, ◌++◌, map, All, length, append_assoc,
  append-nil, le→ltb,
}
use chat_bot.Wire.Host.{Host}
use chat_bot.Wire.Reader.{ok, Bytes, read_times}
use chat_bot.Wire.Dto.{PacketDto}
use chat_bot.Wire.Decode.{
  deserialize_from_binary, read_packet, after_count, deserialize_packet_list,
}
use chat_bot.Wire.Encode.{each, write_u32, write_packets, serialize_packet_list}
use chat_bot.Wire.RoundTrip.Rules.{Reads, Reads-bind, Reads-last_call, Reads-need, Reads-times}
use chat_bot.Wire.RoundTrip.Numbers.{write_u32_leads, Reads-u32, Reads-range}
use chat_bot.Wire.RoundTrip.Structs.{received_packet, sent, FitsPacket}
use chat_bot.Wire.RoundTrip.Packets.{serialize_fits, deserialize_fits}

-- A packet behind its size.
abbrev pub frame : Host → PacketDto → Bytes
frame host p = write_u32 host (length (sent host p)) ++ sent host p

module _ (host : Host) where
  pub Reads-packet :
      (unset : ℕ) (p : PacketDto)
      → FitsPacket host p
      → Reads (read_packet host unset) (frame host p) (received_packet unset p)
  unfolding read_packet
  Reads-packet unset p fits =
      Reads-need 4 (write_u32_leads host (length (sent host p)) (sent host p)) (
        Reads-bind _ (Reads-u32 host (length (sent host p)) fits.size_fits) (
          Reads-need (length (sent host p)) (omega arith) (
            Reads-last_call (deserialize_from_binary host unset) (Reads-range (sent host p))
              (deserialize_fits host unset p fits))))

  write_packets_fit :
      (ps : List PacketDto)
      → All (FitsPacket host) ps
      → write_packets host ps ≡ ok (each (frame host) ps)
  unfolding write_packets each
  write_packets_fit [] all = refl
  write_packets_fit (p ∷ ps) all =
      rw (serialize_fits host p all.0, write_packets_fit ps all.1)
        (ap ok (sym (append_assoc (write_u32 host (length (sent host p))) (sent host p) _)))

  pub after_count_ok :
      (unset count : ℕ) (body rest : Bytes) (packets : List PacketDto)
      → read_times count (read_packet host unset) body ≡ ok (packets, rest)
      → after_count host unset (ok (count, body)) ≡ ok packets
  unfolding after_count
  after_count_ok unset count body rest packets e = rw (e, after_count)

  read_frames :
      (unset : ℕ) (ps : List PacketDto)
      → All (FitsPacket host) ps
      → read_times (length ps) (read_packet host unset) (each (frame host) ps)
        ≡ ok (map (received_packet unset) ps, [])
  read_frames unset ps all = rw append-nil at (
      (Reads-times (read_packet host unset) (frame host) (received_packet unset) (FitsPacket host)
          (Reads-packet unset) ps all).run
        [])

  deserialize_frames :
      (unset : ℕ) (ps : List PacketDto)
      → length ps < 2 ^ 32
      → All (FitsPacket host) ps
      → deserialize_packet_list host unset (write_u32 host (length ps) ++ each (frame host) ps)
        ≡ ok (map (received_packet unset) ps)
  unfolding deserialize_packet_list
  deserialize_frames unset ps few all =
      rw
        (
          le→ltb _ 4 (write_u32_leads host (length ps) (each (frame host) ps)),
          (Reads-u32 host (length ps) few).run (each (frame host) ps),
        )
        (after_count_ok unset (length ps) _ [] _ (read_frames unset ps all))

  -- deSerializePacketList reads back the list that serializePacketList was given, for fewer than
  -- 2 ^ 32 packets whose parts fit their fields: both return, and each packet comes back, in
  -- order, as `received_packet`.
  pub deserialize_list-serialize_list :
      (unset : ℕ) (ps : List PacketDto)
      → length ps < 2 ^ 32
      → All (FitsPacket host) ps
      → (bytes : Bytes) × (serialize_packet_list host ps ≡ ok bytes)
        × (deserialize_packet_list host unset bytes ≡ ok (map (received_packet unset) ps))
  unfolding serialize_packet_list
  deserialize_list-serialize_list unset ps few all = (
    write_u32 host (length ps) ++ each (frame host) ps,
    rw (write_packets_fit ps all, serialize_packet_list),
    deserialize_frames unset ps few all,
  )
