-- ===== src/Transport.antt =====
-- Frames over a socket: Shark_3_0_Qt/src/server/session_transport/session_transport.cpp.
-- The operating system is a parameter: its calls on a state of its own. recv gives the bytes
-- received, and none where the result is not positive; send gives how many bytes it took, and 0
-- where the result is not positive.
mod Tests
pub mod Laws
pub mod Sending
pub mod Frames
use chat_bot.Base.{
  ℕ, zero, suc, ◌+◌, ◌-◌, ◌%◌, ◌^◌, Bool, true, false, not, ◌&&◌, List, [], ◌∷◌, ◌++◌, length, drop,
  if◌then◌else◌, ◌==◌, ltb,
}
use chat_bot.Base.Int.{ℤ, pos, negsuc}
use chat_bot.Wire.Reader.{Bytes}

-- The classes of network_exception.h that the transport throws.
pub data TransportError : Type 0 where
  socket_invalid connect_not_accept receive_data send_data : TransportError

-- The calls, the conversions of <arpa/inet.h>, and memcpy between a 32-bit word and four bytes.
pub record OperatingSystem (S : Type 0) : Type 0 where
  pub is_open : ℤ → S → Bool
  pub accept : ℤ → S → ℤ × S
  pub close : ℤ → S → S
  pub recv : ℤ → ℕ → S → Bytes × S
  pub send : ℤ → Bytes → S → ℕ × S
  pub htonl : ℕ → ℕ
  pub ntohl : ℕ → ℕ
  pub copy_out : ℕ → Bytes
  pub copy_in : Bytes → ℕ

-- How a call ends: it returns, it throws, or the rounds that the model counts are over.
pub data Ended (S : Type 0) (A : Type 0) : Type 0 where
  returned : A → S → Ended S A
  threw : TransportError → S → Ended S A
  out_of_rounds : Ended S A

-- The bytes that a loop has received, in front of those of its other rounds.
abbrev pub prepended : {S : Type 0} → Bytes → Ended S Bytes → Ended S Bytes
prepended chunk (returned rest end) = returned (chunk ++ rest) end
prepended chunk (threw e end) = threw e end
prepended chunk out_of_rounds = out_of_rounds

-- A descriptor of type int.
unfoldable pub is_positive : ℤ → Bool
is_positive (pos n) = not (n == 0)
is_positive (negsuc n) = false

unfoldable pub is_negative : ℤ → Bool
is_negative (pos n) = false
is_negative (negsuc n) = true

unfoldable pub resolve_connection : ℤ → ℤ → ℤ
resolve_connection connection_override connection =
    if is_negative connection_override then connection else connection_override

module _ {S : Type 0} (os : OperatingSystem S) where
  unfoldable pub is_descriptor_valid : ℤ → S → Bool
  is_descriptor_valid fd s = is_positive fd && os.is_open fd s

  unfoldable pub close_internal : ℤ → S → S
  close_internal connection s = if is_negative connection then s else os.close connection s

  -- `connection_` is set to -1 behind it.
  unfoldable pub reset : ℤ → S → ℤ × S
  reset connection s = (negsuc 0, close_internal connection s)

  unfoldable pub is_connected : ℤ → S → Bool
  is_connected connection s = is_descriptor_valid connection s

  -- Whether there is a new connection, and `connection_`.
  unfoldable pub ensure_connected : ℤ → ℤ → S → Ended S (Bool × ℤ)
  ensure_connected listener_fd connection s =
      if is_descriptor_valid connection s
      then returned (false, connection) s
      else let (accepted, after) = os.accept listener_fd (close_internal connection s) in
        if is_negative accepted
        then threw connect_not_accept after
        else returned (true, accepted) after

  -- The loops of ReceiveFrame, by the bytes that are missing and the rounds.
  unfoldable pub receive_bytes : ℕ → ℕ → ℤ → S → Ended S Bytes
  receive_bytes rounds zero fd s = returned [] s
  receive_bytes zero (suc missing) fd s = out_of_rounds
  receive_bytes (suc rounds) (suc missing) fd s =
      let (chunk, after) = os.recv fd (suc missing) s in
      let later = receive_bytes rounds (suc missing - length chunk) fd after in
      elim chunk [ [] ↦ threw receive_data after | b ∷ bs ↦ prepended (b ∷ bs) later ]

  -- Each round of a loop that goes on receives a byte, so the bytes bound the rounds.
  unfoldable pub receive_frame : ℤ → S → Ended S Bytes
  receive_frame connection s =
      if not (is_descriptor_valid connection s)
      then threw socket_invalid s
      else elim (receive_bytes 4 4 connection s) [
        | returned len_buf after ↦
            let len = os.ntohl (os.copy_in len_buf) in receive_bytes len len connection after
        | threw e end ↦ threw e end
        | out_of_rounds ↦ out_of_rounds
      ]

  -- The loops of SendFrame.
  unfoldable pub send_bytes : ℕ → Bytes → ℤ → S → Ended S (Unit {0})
  send_bytes rounds [] fd s = returned tt s
  send_bytes zero (b ∷ bs) fd s = out_of_rounds
  send_bytes (suc rounds) (b ∷ bs) fd s =
      let (sent, after) = os.send fd (b ∷ bs) s in
      let later = send_bytes rounds (drop sent (b ∷ bs)) fd after in
      if sent == 0 then threw send_data after else later

  unfoldable pub send_frame : Bytes → ℤ → ℤ → S → Ended S (Unit {0})
  send_frame bytes connection_override connection s =
      let fd = resolve_connection connection_override connection in
      let len_buf = os.copy_out (os.htonl (length bytes % 2 ^ 32)) in
      if not (is_descriptor_valid fd s)
      then threw socket_invalid s
      else elim (send_bytes 4 len_buf fd s) [
        | returned _ after ↦ send_bytes (length bytes) bytes fd after
        | threw e end ↦ threw e end
        | out_of_rounds ↦ out_of_rounds
      ]
