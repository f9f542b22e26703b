-- ===== src/Transport/Sending.antt =====
-- The loops of SendFrame of Shark_3_0_Qt/src/server/session_transport/session_transport.cpp, on a
-- send that may take a part of the bytes, or fail.
use chat_bot.Base.{
  ℕ, zero, suc, ◌-◌, ◌≤◌, ◌<◌, ◌≡◌, refl, sym, ap, ◌∙◌, inl, inr, ◌⊎◌, subst, Bool, true, false, [],
  ◌∷◌, ◌++◌, length, take, drop, if◌then◌else◌, arith, append_assoc, append-nil, ◌==◌, Bool-cases,
}
use chat_bot.Base.Int.{ℤ}
use chat_bot.Wire.Reader.{Bytes}
use chat_bot.Transport.{OperatingSystem, Ended, returned, threw, send_data, send_bytes}

-- What has gone out: as many of the bytes given as send has taken, from the first on. They are none
-- where it fails.
pub record IsSending {S : Type 0} (os : OperatingSystem S) (fd : ℤ) (outgoing : S → Bytes)
    : Type 0 where
  pub taken :
      (bytes : Bytes) (s : S)
      → outgoing (os.send fd bytes s).1 ≡ outgoing s ++ take (os.send fd bytes s).0 bytes

length-drop : (n : ℕ) (xs : Bytes) → length (drop n xs) ≡ length xs - n
length-drop zero xs = omega arith
length-drop (suc n) [] = omega arith
length-drop (suc n) (x ∷ xs) = omega (arith, length-drop n xs)

take-drop : (n : ℕ) (xs : Bytes) → take n xs ++ drop n xs ≡ xs
take-drop zero xs = refl
take-drop (suc n) [] = refl
take-drop (suc n) (x ∷ xs) = ap (λ l. x ∷ l) (take-drop n xs)

module _ {S : Type 0} (os : OperatingSystem S) (fd : ℤ) where
  -- All bytes have gone out and the call has returned, or send has failed for some of them, which
  -- is the last that happened, and a front of the bytes has gone out.
  abbrev pub IsSentOrCut : (S → Bytes) → Bytes → S → Ended S (Unit {0}) → Type 0
  IsSentOrCut outgoing bytes s ended =
      ((after : S) × (ended ≡ returned tt after) × (outgoing after ≡ outgoing s ++ bytes))
      ⊎ ((part : Bytes) × (missing : Bytes) × (unsent : Bytes) × (last : S) × (part ++ missing
            ≡ bytes)
          × (0 < length missing)
          × (0 < length unsent)
          × ((os.send fd unsent last).0 ≡ 0)
          × (ended ≡ threw send_data (os.send fd unsent last).1)
          × (outgoing (os.send fd unsent last).1 ≡ outgoing s ++ part))

  -- A round of SendFrame, by what send has taken.
  send_bytes-step :
      (rounds b : ℕ) (bs : Bytes) (s : S) (nothing : Bool)
      → ((os.send fd (b ∷ bs) s).0 == 0) ≡ nothing
      → send_bytes os (suc rounds) (b ∷ bs) fd s ≡ (
          if nothing
          then threw send_data (os.send fd (b ∷ bs) s).1
          else send_bytes os rounds
              (drop (os.send fd (b ∷ bs) s).0 (b ∷ bs))
              fd
              (os.send fd (b ∷ bs) s).1)
  unfolding send_bytes
  send_bytes-step rounds b bs s nothing h =
      ap
        (λ t.
          if t
          then threw send_data (os.send fd (b ∷ bs) s).1
          else send_bytes os rounds (drop (os.send fd (b ∷ bs) s).0 (b ∷ bs)) fd
              (os.send fd (b ∷ bs) s).1)
        h

  -- Bytes that have gone out already, in front of those of a call.
  pub IsSentOrCut-behind :
      (outgoing : S → Bytes) (first bytes : Bytes) (s middle : S) (ended : Ended S (Unit {0}))
      → outgoing middle ≡ outgoing s ++ first
      → IsSentOrCut outgoing bytes middle ended
      → IsSentOrCut outgoing (first ++ bytes) s ended
  IsSentOrCut-behind outgoing first bytes s middle ended gone (inl (after, back, out)) =
      inl (after, back, out ∙ ap (λ l. l ++ bytes) gone ∙ append_assoc (outgoing s) first bytes)
  IsSentOrCut-behind outgoing first bytes s middle ended gone
        (inr (part, missing, unsent, last, split, lost, some_bytes, failed, threw_it, out)) =
      inr (
        first ++ part,
        missing,
        unsent,
        last,
        append_assoc first part missing ∙ ap (λ l. first ++ l) split,
        lost,
        some_bytes,
        failed,
        threw_it,
        out ∙ ap (λ l. l ++ part) gone ∙ append_assoc (outgoing s) first part,
      )

  -- The loop sends all bytes, in their order, or a front of them where send fails.
  pub send_bytes-IsSentOrCut :
      (outgoing : S → Bytes)
      → IsSending os fd outgoing
      → (rounds : ℕ) (bytes : Bytes) (s : S) → length bytes ≤ rounds
      → IsSentOrCut outgoing bytes s (send_bytes os rounds bytes fd s)
  unfolding send_bytes
  send_bytes-IsSentOrCut outgoing law rounds [] s fits =
      inl (s, refl, sym (append-nil (outgoing s)))
  send_bytes-IsSentOrCut outgoing law zero (b ∷ bs) s fits = absurd (omega (arith, fits))
  send_bytes-IsSentOrCut outgoing law (suc rounds) (b ∷ bs) s fits =
      let sent = (os.send fd (b ∷ bs) s).0 in
      let next = (os.send fd (b ∷ bs) s).1 in
      let gone = law.taken (b ∷ bs) s in
      elim (Bool-cases (sent == 0)) [
        | inl nothing ↦
            let none_sent : sent ≡ 0 = ground (arith, nothing) in
            inr (
              [],
              b ∷ bs,
              b ∷ bs,
              s,
              refl,
              omega arith,
              omega arith,
              none_sent,
              send_bytes-step rounds b bs s true nothing,
              gone ∙ ap (λ n. outgoing s ++ take n (b ∷ bs)) none_sent,
            )
        | inr some_sent ↦
            let more : 0 < sent = ground (arith, some_sent) in
            let later =
              send_bytes-IsSentOrCut outgoing law rounds (drop sent (b ∷ bs)) next
                (omega (arith, fits, more, length-drop sent (b ∷ bs))) in
            subst (λ l. IsSentOrCut outgoing l s (send_bytes os (suc rounds) (b ∷ bs) fd s))
              (take-drop sent (b ∷ bs))
              (IsSentOrCut-behind outgoing (take sent (b ∷ bs)) (drop sent (b ∷ bs)) s next _ gone (
                subst (IsSentOrCut outgoing (drop sent (b ∷ bs)) next)
                  (sym (send_bytes-step rounds b bs s false some_sent)) later))
      ]
