-- ===== src/Chat/Times.antt =====
-- The messages of a chat in the order of their time stamps: the multimap of
-- Shark_2_0_CLI/src/core/chat/chat.h.
use chat_bot.Base.{
  ℕ, suc, ◌+◌, ◌≤◌, ◌<◌, ◌≡◌, refl, ap, sym, inl, inr, true, List, [], ◌∷◌, All, All-imp, arith,
  lt→ltb, if◌then◌else◌, Bool-cases, length,
}
use chat_bot.Base.Int.{ℤ, pos_part, neg_part, ltb_ℤ}
use chat_bot.Chat.Parts.{Message, insert_message, upper_bound}

-- The order of time stamps.
abbrev pub IsBefore : ℤ → ℤ → Type 0
IsBefore a b = pos_part a + neg_part b < pos_part b + neg_part a

abbrev pub IsNotAfter : ℤ → ℤ → Type 0
IsNotAfter a b = pos_part a + neg_part b ≤ pos_part b + neg_part a

abbrev pub IsSorted : List Message → Type 0
IsSorted [] = Unit {0}
IsSorted (x ∷ xs) = All (λ m. IsNotAfter x.time_stamp m.time_stamp) xs × IsSorted xs

-- How many messages are later than a time stamp, in whatever order they are.
unfoldable pub later_count : ℤ → List Message → ℕ
later_count t [] = 0
later_count t (x ∷ xs) =
    let rest = later_count t xs in if ltb_ℤ t x.time_stamp then suc rest else rest

pub All-insert_message {κ} :
    (P : Message → Type κ) (m : Message) (xs : List Message)
    → P m
    → All P xs
    → All P (insert_message m xs)
unfolding insert_message
All-insert_message P m [] p h = (p, tt)
All-insert_message P m (x ∷ xs) p h = elim (Bool-cases (ltb_ℤ m.time_stamp x.time_stamp)) [
  | inl before ↦ rw before (p, h)
  | inr after ↦ rw after (h.0, All-insert_message P m xs p h.1)
]

pub insert_message-IsSorted :
    (m : Message) (xs : List Message) → IsSorted xs → IsSorted (insert_message m xs)
unfolding insert_message
insert_message-IsSorted m [] h = (tt, tt)
insert_message-IsSorted m (x ∷ xs) h = elim (Bool-cases (ltb_ℤ m.time_stamp x.time_stamp)) [
  | inl before ↦ rw before (
    (
      ground (arith, before),
      All-imp (λ y. IsNotAfter x.time_stamp y.time_stamp)
          (λ y. IsNotAfter m.time_stamp y.time_stamp) xs (λ y le. ground (arith, before)) h.0,
    ),
    h,
  )
  | inr after ↦ rw after (
    All-insert_message (λ y. IsNotAfter x.time_stamp y.time_stamp) m xs (ground (arith, after)) h.0,
    insert_message-IsSorted m xs h.1,
  )
]

pub length-insert_message :
    (m : Message) (xs : List Message) → length (insert_message m xs) ≡ suc (length xs)
unfolding insert_message
length-insert_message m [] = refl
length-insert_message m (x ∷ xs) = ground (arith, length-insert_message m xs)

pub later_count-insert_message :
    (t : ℤ) (m : Message) (xs : List Message)
    → later_count t (insert_message m xs)
      ≡ (if ltb_ℤ t m.time_stamp then suc (later_count t xs) else later_count t xs)
unfolding insert_message later_count
later_count-insert_message t m [] = refl
later_count-insert_message t m (x ∷ xs) = ground (arith, later_count-insert_message t m xs)

later_count_full :
    (t : ℤ) (xs : List Message)
    → All (λ m. IsBefore t m.time_stamp) xs
    → later_count t xs ≡ length xs
unfolding later_count
later_count_full t [] h = refl
later_count_full t (x ∷ xs) h =
    let here : ltb_ℤ t x.time_stamp ≡ true = lt→ltb _ _ h.0 in
    rw here (ap suc (later_count_full t xs h.1))

-- In a multimap in order, the distance from the upper bound to the end is the number of the
-- later messages.
pub length-upper_bound :
    (t : ℤ) (xs : List Message) → IsSorted xs → length (upper_bound t xs) ≡ later_count t xs
unfolding upper_bound later_count
length-upper_bound t [] h = refl
length-upper_bound t (x ∷ xs) h = elim (Bool-cases (ltb_ℤ t x.time_stamp)) [
  | inl later ↦ rw later (
      ap suc (
        sym (
          later_count_full t xs (
            All-imp (λ y. IsNotAfter x.time_stamp y.time_stamp) (λ y. IsBefore t y.time_stamp) xs
              (λ y le. ground (arith, later)) h.0))))
  | inr earlier ↦ rw earlier (length-upper_bound t xs h.1)
]
