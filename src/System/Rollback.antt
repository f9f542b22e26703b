-- ===== src/System/Rollback.antt =====
-- addChatToInstance of Shark_2_0_CLI/src/core/chat_system/chat_system.cpp on a server: what its
-- loop does to the chat lists of the users, and what the loop that rolls back leaves.
use chat_bot.Base.{
  ℕ, ◌≡◌, ◌⊎◌, refl, sym, subst, ap, ◌∙◌, inl, inr, Bool, true, false, Option, none, some, List, [],
  ◌∷◌, ◌++◌, arith, ◌==◌, ==_iff, if◌then◌else◌, or_true, or_false, Bool-cases, Option-cases,
}
use chat_bot.Base.Maps.{find, assign, find-assign}
use chat_bot.Chat.Parts.{Participant, nat_key, has}
use chat_bot.System.{add_to_participants}
use chat_bot.System.Lists.{add_to_list, has-append, add_to_list_idem}

-- A list that holds the chat: as it was where it did, and else with the chat as its last.
unfoldable pub holding : ℕ → List ℕ → List ℕ
holding chat l = if has chat l then l else l ++ chat ∷ []

-- A chat list, which holds the chat for the users in question.
unfoldable pub touch : ℕ → Bool → Option (List ℕ) → Option (List ℕ)
touch chat true none = none
touch chat true (some l) = some (holding chat l)
touch chat false o = o

-- The lists are those of `before`, but that those of the users of `added` hold the chat.
abbrev pub IsAddedFor : ℕ → List ℕ → List (ℕ × List ℕ) → List (ℕ × List ℕ) → Type 0
IsAddedFor chat added before after =
    (user : ℕ) → find user after ≡ touch chat (has user added) (find user before)

pub some_inj : (k l : List ℕ) → some k ≡ some l → k ≡ l
some_inj k l h = ap (λ o. elim o [ none ↦ k | some x ↦ x ]) h

touch-again :
    (chat : ℕ) (b : Bool) (o : Option (List ℕ)) (l : List ℕ)
    → touch chat b o ≡ some l
    → some (add_to_list chat l) ≡ touch chat true o
unfolding touch holding add_to_list
touch-again chat true none l h = absurd (ground (arith, h))
touch-again chat true (some k) l h =
    subst (λ z. some (add_to_list chat z) ≡ some (add_to_list chat k))
      (some_inj (add_to_list chat k) l h) (ap some (add_to_list_idem chat k))
touch-again chat false o l h = rw h refl

one_more :
    (chat user : ℕ) (added : List ℕ) (l : List ℕ) (before after : List (ℕ × List ℕ))
    → IsAddedFor chat added before after
    → find user after ≡ some l
    → IsAddedFor chat (added ++ user ∷ []) before (assign user (add_to_list chat l) after)
one_more chat user added l before after h found other =
    find-assign user other (add_to_list chat l) after ∙ elim (Bool-cases (user == other)) [
      | inl equal ↦
          let same_user = (==_iff user other).0 equal in
          let found_other : find other after ≡ some l =
            subst (λ u. find u after ≡ some l) same_user found in
          rw (has-append other user added, equal, or_true (has other added))
            (touch-again chat (has other added) (find other before) l (sym (h other) ∙ found_other))
      | inr differ ↦ rw (has-append other user added, differ, or_false (has other added)) (h other)
    ]

-- One round of the loop.
add_to_participants-stop :
    (chat : ℕ) (p : Participant) (ps : List Participant) (lists : List (ℕ × List ℕ))
    (added : List ℕ)
    → (p.user ≡ none) ⊎ ((user : ℕ) × (p.user ≡ some user) × (find user lists ≡ none))
    → add_to_participants chat (p ∷ ps) lists added ≡ (false, lists, added)
unfolding add_to_participants
add_to_participants-stop chat p ps lists added (inl gone) = rw (gone, add_to_participants)
add_to_participants-stop chat p ps lists added (inr (user, there, unlisted)) =
    rw (there, unlisted, add_to_participants)

pub add_to_participants-step :
    (chat : ℕ) (p : Participant) (ps : List Participant) (lists : List (ℕ × List ℕ))
    (added : List ℕ) (user : ℕ) (chat_list : List ℕ)
    → p.user ≡ some user
    → find user lists ≡ some chat_list
    → add_to_participants chat (p ∷ ps) lists added
      ≡ add_to_participants chat ps
          (assign user (add_to_list chat chat_list) lists)
          (added ++ user ∷ [])
unfolding add_to_participants
add_to_participants-step chat p ps lists added user chat_list there listed =
    rw (there, listed, add_to_participants)

-- The two cases of a round.
abbrev RoundCases : Participant → List (ℕ × List ℕ) → Type 0
RoundCases p lists =
    ((p.user ≡ none) ⊎ ((user : ℕ) × (p.user ≡ some user) × (find user lists ≡ none)))
    ⊎ ((user : ℕ) × (chat_list : List ℕ) × (p.user ≡ some user)
        × (find user lists ≡ some chat_list))

round_cases : (p : Participant) (lists : List (ℕ × List ℕ)) → RoundCases p lists
round_cases p lists = elim (Option-cases p.user) [
  | inl gone ↦ inl (inl gone)
  | inr (user, there) ↦ elim (Option-cases (find user lists)) [
    | inl unlisted ↦ inl (inr (user, there, unlisted))
    | inr (chat_list, listed) ↦ inr (user, chat_list, there, listed)
  ]
]

-- The loop over the participants adds the chat for the users that it reports, and for no others.
pub add_to_participants-IsAddedFor :
    (chat : ℕ) (ps : List Participant) (added : List ℕ) (before lists : List (ℕ × List ℕ))
    → IsAddedFor chat added before lists
    → IsAddedFor chat
        (add_to_participants chat ps lists added).2
        before
        (add_to_participants chat ps lists added).1
unfolding add_to_participants
add_to_participants-IsAddedFor chat [] added before lists h = h
add_to_participants-IsAddedFor chat (p ∷ ps) added before lists h = elim (round_cases p lists) [
  | inl stop ↦ rw (add_to_participants-stop chat p ps lists added stop) h
  | inr (user, chat_list, there, listed) ↦
      rw (add_to_participants-step chat p ps lists added user chat_list there listed) (
        add_to_participants-IsAddedFor chat ps (added ++ user ∷ []) before
          (assign user (add_to_list chat chat_list) lists)
          (one_more chat user added chat_list before lists h listed))
]
