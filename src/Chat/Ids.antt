-- ===== src/Chat/Ids.antt =====
-- The ids of the messages of a chat: the set of Shark_2_0_CLI/src/core/chat/chat.h, and
-- createNewMessageId of chat.cpp.
use chat_bot.Base.{
  inl, inr, ltb, Bool-cases, ℕ, ◌+◌, ◌-◌, ◌%◌, ◌^◌, ◌≤◌, ◌<◌, ◌≡◌, refl, true, ◌||◌, List, [], ◌∷◌,
  All, arith, ◌==◌,
}
use chat_bot.Chat.{Chat, create_new_message_id}
use chat_bot.Chat.Parts.{insert_id, back, has}

abbrev pub IsAscending : List ℕ → Type 0
IsAscending [] = Unit {0}
IsAscending (i ∷ is) = All (λ j. i < j) is × IsAscending is

pub has-insert_id : (i j : ℕ) (ids : List ℕ) → has j (insert_id i ids) ≡ (i == j || has j ids)
unfolding has insert_id
has-insert_id i j [] = refl
has-insert_id i j (k ∷ ks) = ground (arith, has-insert_id i j ks)

All-insert_id :
    (low i : ℕ) (ids : List ℕ)
    → low < i
    → All (λ j. low < j) ids
    → All (λ j. low < j) (insert_id i ids)
unfolding insert_id
All-insert_id low i [] p h = (p, tt)
All-insert_id low i (k ∷ ks) p h = ground (arith, All-insert_id low i ks)

All-trans :
    (low high : ℕ) (ids : List ℕ) → low ≤ high → All (λ j. high < j) ids → All (λ j. low < j) ids
All-trans low high [] le h = tt
All-trans low high (k ∷ ks) le h = (omega arith, All-trans low high ks le h.1)

pub insert_id-IsAscending : (i : ℕ) (ids : List ℕ) → IsAscending ids → IsAscending (insert_id i ids)
unfolding insert_id
insert_id-IsAscending i [] h = (tt, tt)
insert_id-IsAscending i (k ∷ ks) h =
    ground (arith, insert_id-IsAscending i ks, All-insert_id k i ks, All-trans i k ks)

-- The last element is the largest.
back-ge : (i : ℕ) (ids : List ℕ) → IsAscending (i ∷ ids) → i ≤ back i ids
unfolding back
back-ge i [] h = omega arith
back-ge i (k ∷ ks) h = omega (arith, back-ge k ks h.1, h.0.0)

back-max :
    (i : ℕ) (ids : List ℕ) (j : ℕ) → IsAscending (i ∷ ids) → has j (i ∷ ids) ≡ true → j ≤ back i ids
unfolding back has
back-max i [] j h listed = ground arith
back-max i (k ∷ ks) j h listed = ground (arith, back-max k ks j h.1, back-ge k ks h.1, h.0.0)

All-back : (bound i : ℕ) (ids : List ℕ) → All (λ j. j < bound) (i ∷ ids) → back i ids < bound
unfolding back
All-back bound i [] h = h.0
All-back bound i (k ∷ ks) h = All-back bound k ks h.1

above_back :
    (ids : List ℕ) (j : ℕ)
    → IsAscending ids
    → All (λ i. i < 2 ^ 64 - 1) ids
    → has j ids ≡ true
    → j < elim ids [ [] ↦ 1 | i ∷ is ↦ (back i is + 1) % 2 ^ 64 ]
unfolding has
above_back [] j ascending below listed = absurd (ground arith)
above_back (i ∷ is) j ascending below listed =
    omega (arith, back-max i is j ascending listed, All-back (2 ^ 64 - 1) i is below)

-- createNewMessageId returns an id larger than that of each message of the chat, as long as these
-- are below 2 ^ 64 - 1.
pub create_new_message_id-fresh :
    (chat : Chat) (j : ℕ)
    → IsAscending chat.message_id_map
    → All (λ i. i < 2 ^ 64 - 1) chat.message_id_map
    → has j chat.message_id_map ≡ true
    → j < create_new_message_id chat
unfolding create_new_message_id
create_new_message_id-fresh chat j ascending below listed =
    above_back chat.message_id_map j ascending below listed

-- The new id is at most the bound below which the ids of the chat are.
pub create_new_message_id-le :
    (chat : Chat) (bound : ℕ)
    → 0 < bound
    → bound < 2 ^ 64
    → All (λ i. i < bound) chat.message_id_map
    → create_new_message_id chat ≤ bound
unfolding create_new_message_id
create_new_message_id-le chat bound more small below =
    next_id-le chat.message_id_map bound more small below
  where
    next_id-le :
        (ids : List ℕ) (bound : ℕ)
        → 0 < bound
        → bound < 2 ^ 64
        → All (λ i. i < bound) ids
        → elim ids [ [] ↦ 1 | i ∷ is ↦ (back i is + 1) % 2 ^ 64 ] ≤ bound
    next_id-le [] bound more small below = omega arith
    next_id-le (i ∷ is) bound more small below = omega (arith, All-back bound i is below)

pub All-insert_id_of {κ} :
    (P : ℕ → Type κ) (i : ℕ) (ids : List ℕ) → P i → All P ids → All P (insert_id i ids)
unfolding insert_id
All-insert_id_of P i [] here h = (here, tt)
All-insert_id_of P i (k ∷ ks) here h = elim (Bool-cases (ltb i k)) [
  | inl less ↦ rw less (here, h)
  | inr more ↦ elim (Bool-cases (i == k)) [
    | inl equal ↦ rw (more, equal) h
    | inr differ ↦ rw (more, differ) (h.0, All-insert_id_of P i ks here h.1)
  ]
]
