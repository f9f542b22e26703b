-- ===== src/Transport/Laws.antt =====
-- What Shark_3_0_Qt/src/server/session_transport/session_transport.cpp relies on: recv moves
-- some of the bytes of a stream, and htonl and ntohl put words into the order of the network.
use chat_bot.Base.{
  ℕ, zero, suc, ◌+◌, ◌-◌, ◌^◌, ◌≤◌, ◌<◌, ◌≡◌, refl, sym, ap, ◌∙◌, inl, inr, List, [], ◌∷◌, ◌++◌,
  length, arith, length-append, ◌==◌, Bool-cases,
}
use chat_bot.Base.Int.{ℤ}
use chat_bot.Wire.Reader.{Bytes}
use chat_bot.Wire.Encode.{word_bytes}
use chat_bot.Transport.{
  OperatingSystem, Ended, returned, threw, receive_data, prepended, receive_bytes,
}

-- What is still to come in on a connection, while a peer that has sent it has closed its side:
-- recv gives at least a byte of it and at most those asked for, and nothing where it is over.
pub record IsReceiving {S : Type 0} (os : OperatingSystem S) (fd : ℤ) (incoming : S → Bytes)
    : Type 0 where
  pub more : (n : ℕ) (s : S) → 0 < n → 0 < length (incoming s) → 0 < length (os.recv fd n s).0
  pub most : (n : ℕ) (s : S) → length (os.recv fd n s).0 ≤ n
  pub moved : (n : ℕ) (s : S) → incoming s ≡ (os.recv fd n s).0 ++ incoming (os.recv fd n s).1

-- A word leaves in the order of the network, highest byte first, and comes back.
pub record IsNetworkOrdered {S : Type 0} (os : OperatingSystem S) : Type 0 where
  pub out : (n : ℕ) → n < 2 ^ 32 → os.copy_out (os.htonl n) ≡ word_bytes n
  pub back : (n : ℕ) → n < 2 ^ 32 → os.ntohl (os.copy_in (word_bytes n)) ≡ n

cons_head : (a b : ℕ) (xs ys : List ℕ) → a ∷ xs ≡ b ∷ ys → a ≡ b
cons_head a b xs ys h = ap (λ l. elim l [ [] ↦ a | x ∷ rest ↦ x ]) h

cons_tail : (a b : ℕ) (xs ys : List ℕ) → a ∷ xs ≡ b ∷ ys → xs ≡ ys
cons_tail a b xs ys h = ap (λ l. elim l [ [] ↦ xs | x ∷ rest ↦ rest ]) h

-- A front of a list that is not longer than another front is a front of it.
pub front_of :
    (chunk later bytes rest : Bytes)
    → bytes ++ rest ≡ chunk ++ later
    → length chunk ≤ length bytes
    → (mid : Bytes) × (bytes ≡ chunk ++ mid) × (later ≡ mid ++ rest)
front_of [] later bytes rest h fits = (bytes, refl, sym h)
front_of (c ∷ chunk) later [] rest h fits = absurd (omega (arith, fits))
front_of (c ∷ chunk) later (b ∷ bytes) rest h fits =
    let (mid, same, left) =
      front_of chunk later bytes rest (cons_tail b c (bytes ++ rest) (chunk ++ later) h)
        (omega (arith, fits)) in
    (
      mid,
      ap (λ x. x ∷ bytes) (cons_head b c (bytes ++ rest) (chunk ++ later) h) ∙ ap (λ l. c ∷ l) same,
      left,
    )

module _ {S : Type 0} (os : OperatingSystem S) (fd : ℤ) where
  received_some :
      (chunk : Bytes) (after : S) (later : Ended S Bytes)
      → 0 < length chunk
      → elim chunk [ [] ↦ threw receive_data after | b ∷ bs ↦ prepended (b ∷ bs) later ]
        ≡ prepended chunk later
  received_some [] after later more = absurd (omega (arith, more))
  received_some (b ∷ bs) after later more = refl

  -- One round that receives something.
  receive_bytes-step :
      (rounds missing : ℕ) (s : S)
      → 0 < length (os.recv fd (suc missing) s).0
      → receive_bytes os (suc rounds) (suc missing) fd s
        ≡ prepended (os.recv fd (suc missing) s).0 (
            receive_bytes os rounds
              (suc missing - length (os.recv fd (suc missing) s).0)
              fd
              (os.recv fd (suc missing) s).1)
  unfolding receive_bytes
  receive_bytes-step rounds missing s more =
      received_some (os.recv fd (suc missing) s).0 (os.recv fd (suc missing) s).1 _ more

  -- The loop receives as many bytes as were missing.
  pub receive_bytes-all :
      (incoming : S → Bytes)
      → IsReceiving os fd incoming
      → (rounds n : ℕ) (s : S) (bytes rest : Bytes) → n ≤ rounds
      → length bytes ≡ n
      → incoming s ≡ bytes ++ rest
      → (after : S) × (receive_bytes os rounds n fd s ≡ returned bytes after)
        × (incoming after ≡ rest)
  unfolding receive_bytes
  receive_bytes-all incoming law rounds zero s [] rest fits size there = (s, refl, there)
  receive_bytes-all incoming law rounds zero s (b ∷ bytes) rest fits size there =
      absurd (omega (arith, size))
  receive_bytes-all incoming law zero (suc n) s bytes rest fits size there =
      absurd (omega (arith, fits))
  receive_bytes-all incoming law (suc rounds) (suc n) s bytes rest fits size there =
      let chunk = (os.recv fd (suc n) s).0 in
      let next = (os.recv fd (suc n) s).1 in
      let long : 0 < length (incoming s) =
        omega (arith, size, ap length there ∙ length-append bytes rest) in
      let some_bytes = law.more (suc n) s (omega arith) long in
      let most = law.most (suc n) s in
      let (mid, same, left) =
        front_of chunk (incoming next) bytes rest (sym there ∙ law.moved (suc n) s)
          (omega (arith, most, size)) in
      let (after, received, over) =
        receive_bytes-all incoming law rounds (suc n - length chunk) next mid rest
          (omega (arith, some_bytes, fits))
          (omega (arith, size, most, ap length same ∙ length-append chunk mid)) left in
      (
        after,
        receive_bytes-step rounds n s some_bytes
            ∙ ap (prepended chunk) received
            ∙ ap (λ l. returned l after) (sym same),
        over,
      )

  received_none :
      (chunk : Bytes) (after : S) (later : Ended S Bytes)
      → length chunk ≡ 0
      → elim chunk [ [] ↦ threw receive_data after | b ∷ bs ↦ prepended (b ∷ bs) later ]
        ≡ threw receive_data after
  received_none [] after later over = refl
  received_none (b ∷ bs) after later over = absurd (omega (arith, over))

  -- The loop throws where the peer has sent too few bytes.
  pub receive_bytes-short :
      (incoming : S → Bytes)
      → IsReceiving os fd incoming
      → (rounds n : ℕ) (s : S) → n ≤ rounds
      → length (incoming s) < n
      → (after : S) × (receive_bytes os rounds n fd s ≡ threw receive_data after)
  unfolding receive_bytes
  receive_bytes-short incoming law rounds zero s fits short = absurd (omega (arith, short))
  receive_bytes-short incoming law zero (suc n) s fits short = absurd (omega (arith, fits))
  receive_bytes-short incoming law (suc rounds) (suc n) s fits short =
      let chunk = (os.recv fd (suc n) s).0 in
      let next = (os.recv fd (suc n) s).1 in
      let size : length (incoming s) ≡ length chunk + length (incoming next) =
        ap length (law.moved (suc n) s) ∙ length-append chunk (incoming next) in
      elim (Bool-cases (length chunk == 0)) [
        | inl over ↦ (next, received_none chunk next _ (ground (arith, over)))
        | inr some_bytes ↦
            let more : 0 < length chunk = ground (arith, some_bytes) in
            let (after, lost) =
              receive_bytes-short incoming law rounds (suc n - length chunk) next
                (omega (arith, more, fits)) (omega (arith, size, short)) in
            (after, receive_bytes-step rounds n s more ∙ ap (prepended chunk) lost)
      ]
