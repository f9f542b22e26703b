-- ===== src/Transport/Frames.antt =====
-- SendFrame and ReceiveFrame of Shark_3_0_Qt/src/server/session_transport/session_transport.cpp, one
-- behind the other.
use chat_bot.Base.{
  ◌%◌, ◌^◌, ◌<◌, ◌≡◌, refl, sym, ap, ◌∙◌, inl, inr, true, [], ◌++◌, length, arith, append_assoc,
  length-append, Bool-cases, ltb,
}
use chat_bot.Base.Int.{ℤ}
use chat_bot.Wire.Reader.{Bytes}
use chat_bot.Wire.Encode.{word_bytes}
use chat_bot.Wire.RoundTrip.Numbers.{length-word_bytes}
use chat_bot.Transport.{
  OperatingSystem, returned, threw, out_of_rounds, receive_data, is_descriptor_valid,
  resolve_connection, receive_frame, send_frame,
}
use chat_bot.Transport.Laws.{
  IsReceiving, IsNetworkOrdered, front_of, receive_bytes-all, receive_bytes-short,
}
use chat_bot.Transport.Sending.{IsSending, IsSentOrCut, IsSentOrCut-behind, send_bytes-IsSentOrCut}

-- The length, highest byte first, and the bytes.
abbrev pub frame : Bytes → Bytes
frame bytes = word_bytes (length bytes) ++ bytes

module _ {S : Type 0} (os : OperatingSystem S) (ordered : IsNetworkOrdered os) where
  -- On a valid descriptor SendFrame always ends, where the bytes are less than 2 ^ 32 and send puts
  -- out the bytes that it says it has taken. It returns and the frame has gone out, whatever the
  -- sizes that send takes; or a send of some bytes fails, which is the last that happens, it throws
  -- SendDataException, and a front of the frame that is not the whole of it has gone out.
  pub send_frame-frame :
      (bytes : Bytes) (connection_override connection : ℤ) (s : S) (outgoing : S → Bytes)
      → length bytes < 2 ^ 32
      → is_descriptor_valid os (resolve_connection connection_override connection) s ≡ true
      → IsSending os (resolve_connection connection_override connection) outgoing
      → IsSentOrCut os
          (resolve_connection connection_override connection)
          outgoing
          (frame bytes)
          s
          (send_frame os bytes connection_override connection s)
  unfolding send_frame
  send_frame-frame bytes connection_override connection s outgoing small valid law =
      let fd = resolve_connection connection_override connection in
      let low : length bytes % 2 ^ 32 ≡ length bytes = omega (arith, small) in
      let header : os.copy_out (os.htonl (length bytes % 2 ^ 32)) ≡ word_bytes (length bytes) =
        ap (λ n. os.copy_out (os.htonl n)) low ∙ ordered.out (length bytes) small in
      let head = word_bytes (length bytes) in
      elim (send_bytes-IsSentOrCut os fd outgoing law 4 head s
        (omega (arith, length-word_bytes (length bytes)))) [
          | inl (middle, head_sent, head_out) ↦
              rw (valid, header, head_sent)
                (IsSentOrCut-behind os fd outgoing head bytes s middle _ head_out (
                  send_bytes-IsSentOrCut os fd outgoing law (length bytes) bytes middle
                    (omega arith)))
          | inr (part, missing, unsent, last, split, lost, some_bytes, failed, threw_it, out) ↦
              rw (valid, header, threw_it)
                (inr (
                  part,
                  missing ++ bytes,
                  unsent,
                  last,
                  sym (append_assoc part missing bytes) ∙ ap (λ l. l ++ bytes) split,
                  omega (arith, lost, length-append missing bytes),
                  some_bytes,
                  failed,
                  refl,
                  out,
                ))
        ]

  -- On a valid descriptor ReceiveFrame ends and returns the bytes of the frame that comes in,
  -- whatever the sizes that recv gives, and nothing behind the frame is touched.
  pub receive_frame-frame :
      (bytes rest : Bytes) (connection : ℤ) (s : S) (incoming : S → Bytes)
      → length bytes < 2 ^ 32
      → is_descriptor_valid os connection s ≡ true
      → IsReceiving os connection incoming
      → incoming s ≡ frame bytes ++ rest
      → (after : S) × (receive_frame os connection s ≡ returned bytes after)
        × (incoming after ≡ rest)
  unfolding receive_frame
  receive_frame-frame bytes rest connection s incoming small valid law there =
      let head = word_bytes (length bytes) in
      let (middle, head_received, left) =
        receive_bytes-all os connection incoming law 4 4 s head (bytes ++ rest) (omega arith)
          (length-word_bytes (length bytes)) (there ∙ append_assoc head bytes rest) in
      let (after, received, over) =
        receive_bytes-all os connection incoming law (length bytes) (length bytes) middle bytes rest
          (omega arith) refl left in
      (after, rw (valid, head_received, ordered.back (length bytes) small) received, over)

  -- Where the peer has closed the connection within a frame, ReceiveFrame throws
  -- ReceiveDataException.
  pub receive_frame-cut :
      (bytes part missing : Bytes) (connection : ℤ) (s : S) (incoming : S → Bytes)
      → length bytes < 2 ^ 32
      → is_descriptor_valid os connection s ≡ true
      → IsReceiving os connection incoming
      → part ++ missing ≡ frame bytes
      → 0 < length missing
      → incoming s ≡ part
      → (after : S) × (receive_frame os connection s ≡ threw receive_data after)
  unfolding receive_frame
  receive_frame-cut bytes part missing connection s incoming small valid law split lost there =
      let head = word_bytes (length bytes) in
      let size : length (incoming s) ≡ length part = ap length there in
      elim (Bool-cases (ltb (length part) 4)) [
        | inl short ↦
            let (after, threw_it) =
              receive_bytes-short os connection incoming law 4 4 s (omega arith)
                (ground (arith, size, short)) in
            (after, rw (valid, threw_it) refl)
        | inr long ↦
            let (mid, same, left) =
              front_of head bytes part missing split
                (ground (arith, length-word_bytes (length bytes), long)) in
            let (middle, head_received, over) =
              receive_bytes-all os connection incoming law 4 4 s head mid (omega arith)
                (length-word_bytes (length bytes)) (there ∙ same) in
            let (after, threw_it) =
              receive_bytes-short os connection incoming law (length bytes) (length bytes) middle
                (omega arith)
                (omega (arith, lost, ap length left ∙ length-append mid missing, ap length over)) in
            (after, rw (valid, head_received, ordered.back (length bytes) small) threw_it)
      ]

returned_inj : {S A : Type 0} (a b : A) (s t : S) → returned a s ≡ returned b t → s ≡ t
returned_inj a b s t h =
    ap (λ e. elim e [ returned x end ↦ end | threw x end ↦ s | out_of_rounds ↦ s ]) h

-- What SendFrame has sent on a new connection is what ReceiveFrame returns on the other side,
-- whatever the sizes that send and recv move and the byte orders of the two hosts.
pub receive_frame-send_frame :
    {S T : Type 0} (sender : OperatingSystem S) (receiver : OperatingSystem T) (bytes rest : Bytes)
    (connection_override connection peer : ℤ) (s after : S) (t : T) (outgoing : S → Bytes)
    (incoming : T → Bytes)
    → IsNetworkOrdered sender
    → IsNetworkOrdered receiver
    → IsSending sender (resolve_connection connection_override connection) outgoing
    → IsReceiving receiver peer incoming
    → length bytes < 2 ^ 32
    → is_descriptor_valid sender (resolve_connection connection_override connection) s ≡ true
    → is_descriptor_valid receiver peer t ≡ true
    → outgoing s ≡ []
    → send_frame sender bytes connection_override connection s ≡ returned tt after
    → incoming t ≡ outgoing after ++ rest
    → (end : T) × (receive_frame receiver peer t ≡ returned bytes end) × (incoming end ≡ rest)
receive_frame-send_frame sender receiver bytes rest connection_override connection peer s after t
      outgoing incoming out_order in_order sending receiving small valid valid_peer fresh sent
      there =
    elim (send_frame-frame sender out_order bytes connection_override connection s outgoing small
      valid sending) [
        | inl (last, sent_too, out) ↦
            receive_frame-frame receiver in_order bytes rest peer t incoming small valid_peer
              receiving
              (there
                ∙ ap (λ a. outgoing a ++ rest) (returned_inj tt tt after last (sym sent ∙ sent_too))
                ∙ ap (λ l. l ++ rest) (out ∙ ap (λ l. l ++ frame bytes) fresh))
        | inr (part, missing, unsent, last, split, lost, some_bytes, failed, threw_it, out) ↦
            absurd (ground (arith, sym sent ∙ threw_it))
      ]
