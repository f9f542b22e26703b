-- ===== src/System/Restore.antt =====
-- The loop of addChatToInstance of Shark_2_0_CLI/src/core/chat_system/chat_system.cpp that rolls back.
use mathlib.Core.Option
use chat_bot.Base.{
  ℕ, ◌≡◌, ◌⊎◌, refl, sym, subst, ap, ◌∙◌, inl, inr, true, false, Option, none, some, List, [], ◌∷◌,
  arith, ◌==◌, ==_iff, Bool-cases, Option-cases,
}
use chat_bot.Base.Maps.{find, assign, find-assign}
use chat_bot.Chat.Parts.{nat_key, has}
use chat_bot.System.{roll_back}
use chat_bot.System.Lists.{
  add_to_list, delete_from_list, delete_from_list_absent, delete_from_list-add_to_list,
}
use chat_bot.System.Rollback.{IsAddedFor, holding, touch, some_inj}

-- No user has the chat in the list.
abbrev pub IsAbsent : ℕ → List (ℕ × List ℕ) → Type 0
IsAbsent chat lists = (user : ℕ) (l : List ℕ) → find user lists ≡ some l → has chat l ≡ false

-- The list of each user is as before, or has the chat added and its user is still to come.
abbrev IsRestoring : ℕ → List ℕ → List (ℕ × List ℕ) → List (ℕ × List ℕ) → Type 0
IsRestoring chat todo before now =
    (user : ℕ)
    → (find user now ≡ find user before)
      ⊎ ((has user todo ≡ true)
          × (find user now ≡ Option.map (add_to_list chat) (find user before)))

deleted_back :
    (chat : ℕ) (o : Option (List ℕ)) (l : List ℕ)
    → ((k : List ℕ) → o ≡ some k → has chat k ≡ false)
    → (some l ≡ o) ⊎ (some l ≡ Option.map (add_to_list chat) o)
    → some (delete_from_list chat l) ≡ o
deleted_back chat none l absent (inl e) = absurd (ground (arith, e))
deleted_back chat none l absent (inr e) = absurd (ground (arith, e))
deleted_back chat (some k) l absent (inl e) =
    rw (some_inj l k e) (ap some (delete_from_list_absent chat k (absent k refl)))
deleted_back chat (some k) l absent (inr e) =
    rw (some_inj l (add_to_list chat k) e)
      (ap some (delete_from_list-add_to_list chat k (absent k refl)))

-- A user without a list had none before.
none_back :
    (chat : ℕ) (o : Option (List ℕ))
    → (none ≡ o) ⊎ (none ≡ Option.map (add_to_list chat) o)
    → none ≡ o
none_back chat none e = refl
none_back chat (some k) (inl e) = e
none_back chat (some k) (inr e) = absurd (ground (arith, e))

-- The state of a user, without the place in the list of those to come.
forget :
    (chat : ℕ) (todo : List ℕ) (before now : List (ℕ × List ℕ)) (user : ℕ) (o : Option (List ℕ))
    → IsRestoring chat todo before now
    → find user now ≡ o
    → (o ≡ find user before) ⊎ (o ≡ Option.map (add_to_list chat) (find user before))
forget chat todo before now user o h found = elim (h user) [
  | inl same ↦ inl (sym found ∙ same)
  | inr (listed, added) ↦ inr (sym found ∙ added)
]

-- One user less to come.
shorter :
    (chat user : ℕ) (todo : List ℕ) (before now later : List (ℕ × List ℕ))
    → IsRestoring chat (user ∷ todo) before now
    → find user later ≡ find user before
    → ((other : ℕ) → (user == other) ≡ false → find other later ≡ find other now)
    → IsRestoring chat todo before later
unfolding has
shorter chat user todo before now later h done kept other = elim (Bool-cases (user == other)) [
  | inl equal ↦ inl (subst (λ u. find u later ≡ find u before) ((==_iff user other).0 equal) done)
  | inr differ ↦ elim (h other) [
    | inl same ↦ inl (kept other differ ∙ same)
    | inr (listed, added) ↦ inr (ground (arith, listed, differ), kept other differ ∙ added)
  ]
]

roll_back-none :
    (chat user : ℕ) (todo : List ℕ) (lists : List (ℕ × List ℕ))
    → find user lists ≡ none
    → roll_back chat (user ∷ todo) lists ≡ roll_back chat todo lists
unfolding roll_back
roll_back-none chat user todo lists h = rw (h, roll_back)

roll_back-some :
    (chat user : ℕ) (todo : List ℕ) (lists : List (ℕ × List ℕ)) (l : List ℕ)
    → find user lists ≡ some l
    → roll_back chat (user ∷ todo) lists
      ≡ roll_back chat todo (assign user (delete_from_list chat l) lists)
unfolding roll_back
roll_back-some chat user todo lists l h = rw (h, roll_back)

roll_back-IsRestoring :
    (chat : ℕ) (todo : List ℕ) (before now : List (ℕ × List ℕ))
    → IsAbsent chat before
    → IsRestoring chat todo before now
    → (user : ℕ) → find user (roll_back chat todo now) ≡ find user before
unfolding roll_back has
roll_back-IsRestoring chat [] before now absent h user = elim (h user) [
  | inl same ↦ same
  | inr (listed, added) ↦ absurd (ground (arith, listed))
]
roll_back-IsRestoring chat (u ∷ todo) before now absent h user = elim (Option-cases (find u now)) [
  | inl unlisted ↦ rw (roll_back-none chat u todo now unlisted) (
      roll_back-IsRestoring chat todo before now absent
        (shorter chat u todo before now now h
          (unlisted
            ∙ none_back chat (find u before) (forget chat (u ∷ todo) before now u none h unlisted))
          (λ other differ. refl))
        user)
  | inr (l, listed) ↦
      let less = assign u (delete_from_list chat l) now in
      let self : find u less ≡ some (delete_from_list chat l) =
        find-assign u u (delete_from_list chat l) now ∙ ground arith in
      rw (roll_back-some chat u todo now l listed) (
        roll_back-IsRestoring chat todo before less absent
          (shorter chat u todo before now less h
            (self
              ∙ deleted_back chat (find u before) l (absent u)
                  (forget chat (u ∷ todo) before now u (some l) h listed))
            (λ other differ. find-assign u other (delete_from_list chat l) now ∙ rw differ))
          user)
]

touch-true : (chat : ℕ) (o : Option (List ℕ)) → touch chat true o ≡ Option.map (add_to_list chat) o
unfolding touch holding add_to_list
touch-true chat none = refl
touch-true chat (some l) = refl

-- Where no list had the chat, rolling back after the loop over the participants restores them all.
pub roll_back-IsAddedFor :
    (chat : ℕ) (added : List ℕ) (before now : List (ℕ × List ℕ))
    → IsAbsent chat before
    → IsAddedFor chat added before now
    → (user : ℕ) → find user (roll_back chat added now) ≡ find user before
unfolding touch
roll_back-IsAddedFor chat added before now absent h user =
    roll_back-IsRestoring chat added before now absent
      (λ u. elim (Bool-cases (has u added)) [
        | inl listed ↦ inr (
          listed,
          h u ∙ ap (λ b. touch chat b (find u before)) listed ∙ touch-true chat (find u before),
        )
        | inr other ↦ inl (h u ∙ ap (λ b. touch chat b (find u before)) other)
      ])
      user
