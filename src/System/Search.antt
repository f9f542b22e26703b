-- ===== src/System/Search.antt =====
-- findUserByTextPart of Shark_2_0_CLI/src/core/chat_system/chat_system.cpp.
use chat_bot.Base.{
  ℕ, ◌≡◌, ◌↔◌, ◌⊎◌, refl, sym, ap, subst, ◌∙◌, inl, inr, Bool, true, false, or_true, ◌||◌, Option,
  List, [], ◌∷◌, ◌++◌, All, arith, ◌==◌, ==_iff, if◌then◌else◌, Bool-cases,
}
use chat_bot.Wire.Reader.{Bytes}
use chat_bot.Text.Utf8.{text_to_lower}
use chat_bot.Chat.Parts.{bytes_key}
use chat_bot.System.{Account, ChatSystem, is_active, matching_users, find_user_by_text_part}
use chat_bot.System.Lists.{starts_with, contains}

-- Whether the text stands somewhere in the other.
abbrev pub IsPart : Bytes → Bytes → Type 0
IsPart text s = (before after : Bytes) × (s ≡ before ++ text ++ after)

starts_with-prefix :
    (text s : Bytes) → starts_with text s ≡ true → (rest : Bytes) × (s ≡ text ++ rest)
unfolding starts_with
starts_with-prefix [] s h = (s, refl)
starts_with-prefix (c ∷ cs) [] h = absurd (ground (arith, h))
starts_with-prefix (c ∷ cs) (d ∷ ds) h =
    let first : c == d ≡ true = ground (arith, h) in
    let (rest, tail) = starts_with-prefix cs ds (ground (arith, h)) in
    (rest, cc ((==_iff c d).0 first, tail))

starts_with-append : (text rest : Bytes) → starts_with text (text ++ rest) ≡ true
unfolding starts_with
starts_with-append [] rest = refl
starts_with-append (c ∷ cs) rest = ground (arith, starts_with-append cs rest)

contains_here : (text s : Bytes) → starts_with text s ≡ true → contains text s ≡ true
unfolding contains
contains_here text [] h = h
contains_here text (d ∷ ds) h = rw h

contains_later :
    (text : Bytes) (d : ℕ) (s : Bytes) → contains text s ≡ true → contains text (d ∷ s) ≡ true
unfolding contains
contains_later text d s h = rw (h, or_true (starts_with text (d ∷ s)))

contains-append : (text before after : Bytes) → contains text (before ++ text ++ after) ≡ true
contains-append text [] after = contains_here text (text ++ after) (starts_with-append text after)
contains-append text (b ∷ before) after =
    contains_later text b (before ++ text ++ after) (contains-append text before after)

contains-IsPart : (text s : Bytes) → contains text s ≡ true → IsPart text s
unfolding contains
contains-IsPart text [] h = let (rest, e) = starts_with-prefix text [] h in ([], rest, e)
contains-IsPart text (d ∷ ds) h = elim (Bool-cases (starts_with text (d ∷ ds))) [
  | inl here ↦ let (rest, e) = starts_with-prefix text (d ∷ ds) here in ([], rest, e)
  | inr not_here ↦
      let (before, after, e) = contains-IsPart text ds (ground (arith, h, not_here)) in
      (d ∷ before, after, ap (◌∷◌ d) e)
]

-- std::string::find finds a text exactly if it stands somewhere in the other.
contains_iff : (text s : Bytes) → (contains text s ≡ true) ↔ IsPart text s
contains_iff text s = (
  contains-IsPart text s,
  λ (before, after, e).
      subst (λ t. contains text t ≡ true) (sym e) (contains-append text before after),
)

-- A user that a search for the text, in lower case, is to show.
abbrev pub IsWanted : Bytes → Option ℕ → Account → Type 0
IsWanted text active user =
    (is_active active user ≡ false)
    × (IsPart text (text_to_lower user.login) ⊎ IsPart text (text_to_lower user.user_name))

-- The test that the loop makes.
is_wanted : Bytes → Option ℕ → Account → Bool
is_wanted text active user =
    if is_active active user
    then false
    else contains text (text_to_lower user.login) || contains text (text_to_lower user.user_name)

is_wanted→IsWanted :
    (text : Bytes) (active : Option ℕ) (user : Account)
    → is_wanted text active user ≡ true
    → IsWanted text active user
unfolding is_wanted
is_wanted→IsWanted text active user h = ground (
  arith,
  h,
  contains-IsPart text (text_to_lower user.login),
  contains-IsPart text (text_to_lower user.user_name),
)

IsWanted→is_wanted :
    (text : Bytes) (active : Option ℕ) (user : Account)
    → IsWanted text active user
    → is_wanted text active user ≡ true
unfolding is_wanted
IsWanted→is_wanted text active user (other, inl part) =
    rw (other, (contains_iff text (text_to_lower user.login)).1 part)
IsWanted→is_wanted text active user (other, inr part) = rw (
  other,
  (contains_iff text (text_to_lower user.user_name)).1 part,
  or_true (contains text (text_to_lower user.login)),
)

matching_users-wanted :
    (text : Bytes) (active : Option ℕ) (user : Account) (users : List Account)
    → is_wanted text active user ≡ true
    → matching_users text active (user ∷ users) ≡ user ∷ matching_users text active users
unfolding matching_users is_wanted
matching_users-wanted text active user users h = ground (arith, h)

matching_users-other :
    (text : Bytes) (active : Option ℕ) (user : Account) (users : List Account)
    → is_wanted text active user ≡ false
    → matching_users text active (user ∷ users) ≡ matching_users text active users
unfolding matching_users is_wanted
matching_users-other text active user users h = ground (arith, h)

matching_users-All :
    (text : Bytes) (active : Option ℕ) (users : List Account)
    → All (IsWanted text active) (matching_users text active users)
unfolding matching_users
matching_users-All text active [] = tt
matching_users-All text active (user ∷ users) = elim (Bool-cases (is_wanted text active user)) [
  | inl wanted ↦
      rw (matching_users-wanted text active user users wanted)
        (is_wanted→IsWanted text active user wanted, matching_users-All text active users)
  | inr other ↦
      rw (matching_users-other text active user users other) (matching_users-All text active users)
]

matching_users-append :
    (text : Bytes) (active : Option ℕ) (before after : List Account)
    → matching_users text active (before ++ after)
      ≡ matching_users text active before ++ matching_users text active after
unfolding matching_users
matching_users-append text active [] after = refl
matching_users-append text active (user ∷ before) after =
    elim (Bool-cases (is_wanted text active user)) [
      | inl wanted ↦ rw (
        matching_users-wanted text active user (before ++ after) wanted,
        matching_users-wanted text active user before wanted,
        matching_users-append text active before after,
      )
      | inr other ↦ rw (
        matching_users-other text active user (before ++ after) other,
        matching_users-other text active user before other,
        matching_users-append text active before after,
      )
    ]

-- Every user that findUserByTextPart finds is not the active one and has the text in the login or
-- in the name, without regard to the case of ASCII letters.
pub find_user_by_text_part-IsWanted :
    (text : Bytes) (s : ChatSystem)
    → All (IsWanted (text_to_lower text) s.active_user) (find_user_by_text_part text s)
unfolding find_user_by_text_part
find_user_by_text_part-IsWanted text s =
    matching_users-All (text_to_lower text) s.active_user s.users

-- Every user of the system that is not the active one and has the text in the login or in the
-- name, without regard to the case of ASCII letters, is found, between those that are found of the
-- users before and those of the users after.
pub find_user_by_text_part_complete :
    (text : Bytes) (s : ChatSystem) (user : Account) (before after : List Account)
    → s.users ≡ before ++ user ∷ after
    → IsWanted (text_to_lower text) s.active_user user
    → find_user_by_text_part text s
      ≡ matching_users (text_to_lower text) s.active_user before
        ++ user ∷ matching_users (text_to_lower text) s.active_user after
unfolding find_user_by_text_part
find_user_by_text_part_complete text s user before after e wanted =
    let lower = text_to_lower text in
    ap (matching_users lower s.active_user) e
    ∙ matching_users-append lower s.active_user before (user ∷ after)
    ∙ ap (λ found. matching_users lower s.active_user before ++ found)
        (matching_users-wanted lower s.active_user user after
          (IsWanted→is_wanted lower s.active_user user wanted))
