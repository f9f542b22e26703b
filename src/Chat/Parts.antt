-- ===== src/Chat/Parts.antt =====
-- What a chat of Shark_2_0_CLI/src/core/chat/chat.h is made of: messages, users, participants, and
-- the containers of the standard library that it keeps them in.
use chat_bot.Base.{
  ℕ, ◌≡◌, ◌↔◌, refl, subst, Bool, true, false, ◌||◌, Option, List, [], ◌∷◌, arith, ltb, ◌==◌,
  ==_iff, if◌then◌else◌,
}
use chat_bot.Base.Int.{ℤ, ltb_ℤ}
use chat_bot.Base.Maps.{Key}
use chat_bot.Wire.Reader.{Bytes}
use chat_bot.Text.Utf8.{same_text}

-- core/message/message.h: the contents as texts, the sender by its address.
pub record Message : Type 0 where
  pub content : List Bytes
  pub sender : Option ℕ
  pub time_stamp : ℤ
  pub message_id : ℕ

-- A shared pointer to a user: the address, and the login that the chat reads through it.
pub record User : Type 0 where
  pub address : ℕ
  pub login : Bytes

-- The weak pointer is `none` when its user is gone.
pub record Participant : Type 0 where
  pub user : Option ℕ
  pub deleted_from_chat : Bool

same_text_refl : (a : Bytes) → same_text a a ≡ true
unfolding same_text
same_text_refl [] = refl
same_text_refl (x ∷ xs) = ground (arith, same_text_refl xs)

same_text→eq : (a b : Bytes) → same_text a b ≡ true → a ≡ b
unfolding same_text
same_text→eq [] [] h = refl
same_text→eq [] (y ∷ ys) h = absurd (ground arith)
same_text→eq (x ∷ xs) [] h = absurd (ground arith)
same_text→eq (x ∷ xs) (y ∷ ys) h = ground (arith, same_text→eq xs ys)

pub same_text_iff : (a b : Bytes) → (same_text a b ≡ true) ↔ (a ≡ b)
same_text_iff a b = (same_text→eq a b, λ e. subst (λ c. same_text a c ≡ true) e (same_text_refl a))

instance abbrev pub bytes_key : Key Bytes
bytes_key = record { same = same_text; same_iff = same_text_iff }

instance abbrev pub nat_key : Key ℕ
nat_key = record { same = ◌==◌; same_iff = ==_iff }

-- std::multimap::insert, behind the entries of the same key.
unfoldable pub insert_message : Message → List Message → List Message
insert_message m [] = m ∷ []
insert_message m (x ∷ xs) =
    let later = insert_message m xs in
    if ltb_ℤ m.time_stamp x.time_stamp then m ∷ x ∷ xs else x ∷ later

-- std::multimap::upper_bound, the entries from the iterator on.
unfoldable pub upper_bound : ℤ → List Message → List Message
upper_bound t [] = []
upper_bound t (x ∷ xs) =
    let later = upper_bound t xs in if ltb_ℤ t x.time_stamp then x ∷ xs else later

-- std::set::insert, in ascending order.
unfoldable pub insert_id : ℕ → List ℕ → List ℕ
insert_id i [] = i ∷ []
insert_id i (j ∷ js) =
    let later = insert_id i js in
    if ltb i j then i ∷ j ∷ js else if i == j then j ∷ js else j ∷ later

-- The last element of a list with a head.
unfoldable pub back : ℕ → List ℕ → ℕ
back i [] = i
back i (j ∷ js) = back j js

-- unordered_set::find
unfoldable pub has : ℕ → List ℕ → Bool
has i [] = false
has i (j ∷ js) = j == i || has i js
