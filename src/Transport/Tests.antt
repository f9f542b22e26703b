-- ===== src/Transport/Tests.antt =====
-- The transport on a system that moves at most three bytes at a time.
use chat_bot.Base.{
  ℕ, zero, suc, ◌+◌, ◌*◌, ◌^◌, ◌<◌, ◌≤◌, ◌≡◌, refl, true, [], ◌∷◌, ◌++◌, length, take, drop, arith,
  if◌then◌else◌, ltb,
}
use chat_bot.Base.Int.{pos, negsuc}
use chat_bot.Wire.Reader.{Bytes}
use chat_bot.Wire.Encode.{word_bytes}
use chat_bot.Transport.{
  OperatingSystem, returned, threw, receive_data, send_data, is_descriptor_valid, is_positive,
  is_negative, resolve_connection, send_bytes, receive_frame, send_frame,
}
use chat_bot.Transport.Laws.{IsReceiving, IsNetworkOrdered}
use chat_bot.Transport.Sending.{IsSending, IsSentOrCut}
use chat_bot.Transport.Frames.{frame, send_frame-frame, receive_frame-cut, receive_frame-send_frame}

-- At most three bytes.
abbrev few : ℕ → ℕ
few n = if ltb n 3 then n else 3

abbrev word_of : Bytes → ℕ
word_of (a ∷ b ∷ c ∷ d ∷ []) = a * 2 ^ 24 + b * 2 ^ 16 + c * 2 ^ 8 + d
word_of _ = 0

-- The bytes to come in, and those that have gone out.
abbrev slow : OperatingSystem (Bytes × Bytes)
slow = record {
  is_open = λ fd s. true;
  accept = λ fd s. (pos 7, s);
  close = λ fd s. s;
  recv = λ fd n s. (take (few n) s.0, (drop (few n) s.0, s.1));
  send = λ fd bytes s. (few (length bytes), (s.0, s.1 ++ take (few (length bytes)) bytes));
  htonl = λ n. n;
  ntohl = λ n. n;
  copy_out = word_bytes;
  copy_in = word_of;
}

length-take_le : (n : ℕ) (xs : Bytes) → length (take n xs) ≤ n
length-take_le zero xs = omega arith
length-take_le (suc n) [] = omega arith
length-take_le (suc n) (x ∷ xs) = omega (arith, length-take_le n xs)

length-take_some : (n : ℕ) (xs : Bytes) → 0 < n → 0 < length xs → 0 < length (take n xs)
length-take_some zero xs more some_bytes = absurd (omega (arith, more))
length-take_some (suc n) [] more some_bytes = absurd (omega (arith, some_bytes))
length-take_some (suc n) (x ∷ xs) more some_bytes = omega arith

take-drop : (n : ℕ) (xs : Bytes) → xs ≡ take n xs ++ drop n xs
take-drop zero xs = refl
take-drop (suc n) [] = refl
take-drop (suc n) (x ∷ xs) = rw⁻¹ (take-drop n xs) refl

few-le : (n : ℕ) → few n ≤ n
few-le n = ground arith

few-some : (n : ℕ) → 0 < n → 0 < few n
few-some n more = ground (arith, more)

slow-IsReceiving : IsReceiving slow (pos 7) (λ s. s.0)
slow-IsReceiving = record {
  more = λ n s more some_bytes. length-take_some (few n) s.0 (few-some n more) some_bytes;
  most = λ n s. omega (arith, length-take_le (few n) s.0, few-le n);
  moved = λ n s. take-drop (few n) s.0;
}

slow-IsSending : IsSending slow (pos 7) (λ s. s.1)
slow-IsSending = record { taken = λ bytes s. refl }

slow-IsNetworkOrdered : IsNetworkOrdered slow
unfolding word_bytes
slow-IsNetworkOrdered = record { out = λ n small. refl; back = λ n small. omega (arith, small) }

abbrev text : Bytes
text = 104 ∷ 101 ∷ 108 ∷ 108 ∷ 111 ∷ []

receive_frame-send_frame_example :
    (end : Bytes × Bytes) × (receive_frame slow (pos 7) (0 ∷ 0 ∷ 0 ∷ 5 ∷ text ++ 9 ∷ [], [])
      ≡ returned text end)
    × (end.0 ≡ 9 ∷ [])
unfolding send_frame send_bytes resolve_connection is_negative is_descriptor_valid is_positive
    word_bytes
receive_frame-send_frame_example =
    receive_frame-send_frame slow slow text (9 ∷ []) (negsuc 0) (pos 7) (pos 7) ([], [])
      ([], 0 ∷ 0 ∷ 0 ∷ 5 ∷ text) (0 ∷ 0 ∷ 0 ∷ 5 ∷ text ++ 9 ∷ [], []) (λ s. s.1) (λ s. s.0)
      slow-IsNetworkOrdered slow-IsNetworkOrdered slow-IsSending slow-IsReceiving (omega arith) refl
      refl refl refl refl

receive_frame-cut_example :
    (after : Bytes × Bytes) × (receive_frame slow (pos 7) (0 ∷ 0 ∷ 0 ∷ 5 ∷ 104 ∷ [], [])
      ≡ threw receive_data after)
unfolding is_descriptor_valid is_positive word_bytes
receive_frame-cut_example =
    receive_frame-cut slow slow-IsNetworkOrdered text (0 ∷ 0 ∷ 0 ∷ 5 ∷ 104 ∷ [])
      (101 ∷ 108 ∷ 108 ∷ 111 ∷ []) (pos 7) (0 ∷ 0 ∷ 0 ∷ 5 ∷ 104 ∷ [], []) (λ s. s.0) (omega arith)
      refl slow-IsReceiving refl (omega arith) refl

send_frame-frame_example :
    IsSentOrCut slow
      (pos 7)
      (λ s. s.1)
      (frame text)
      ([], [])
      (send_frame slow text (negsuc 0) (pos 7) ([], []))
unfolding is_descriptor_valid is_positive resolve_connection is_negative
send_frame-frame_example =
    send_frame-frame slow slow-IsNetworkOrdered text (negsuc 0) (pos 7) ([], []) (λ s. s.1)
      (omega arith) refl slow-IsSending

-- A connection that takes no bytes.
choked :
    send_frame (record slow { send = λ fd bytes s. (0, s) }) text (negsuc 0) (pos 7) ([], [])
    ≡ threw send_data ([], [])
unfolding send_frame send_bytes is_descriptor_valid is_positive resolve_connection is_negative
    word_bytes
choked = refl
