-- ===== src/System/Instance.antt =====
-- addChatToInstance of Shark_2_0_CLI/src/core/chat_system/chat_system.cpp on a server, as a whole.
use chat_bot.Base.{
  ℕ, ◌≡◌, ◌⊎◌, refl, sym, subst, ◌∙◌, inl, inr, true, false, none, some, List, [], ◌∷◌, ◌++◌, All,
  All-imp, append_assoc, append-nil, ◌==◌, Bool-cases,
}
use chat_bot.Base.Maps.{find, assign, find-assign}
use chat_bot.Chat.{Chat}
use chat_bot.Chat.Parts.{Participant, nat_key, has}
use chat_bot.System.{
  ChatSystem, add_to_participants, roll_back, returned, register_chat, add_on_server,
  add_chat_to_instance,
}
use chat_bot.System.Lists.{add_to_list}
use chat_bot.System.Rollback.{
  touch, IsAddedFor, add_to_participants-IsAddedFor, add_to_participants-step,
}
use chat_bot.System.Restore.{IsAbsent, roll_back-IsAddedFor}

-- The chat lists of two systems hold the same for each user.
abbrev pub HasSameLists : List (ℕ × List ℕ) → List (ℕ × List ℕ) → Type 0
HasSameLists before after = (user : ℕ) → find user after ≡ find user before

-- The user of a participant is alive and has a chat list.
abbrev pub IsPresent : List (ℕ × List ℕ) → Participant → Type 0
IsPresent lists p =
    (user : ℕ) × (chat_list : List ℕ) × (p.user ≡ some user) × (find user lists ≡ some chat_list)

-- The users of the participants.
unfoldable pub addresses : List Participant → List ℕ
addresses [] = []
addresses (p ∷ ps) =
    let later = addresses ps in elim (p.user) [ none ↦ later | some user ↦ user ∷ later ]

pub nobody : (chat : ℕ) (lists : List (ℕ × List ℕ)) → IsAddedFor chat [] lists lists
unfolding touch has
nobody chat lists user = refl

pub add_on_server-eq-true :
    (address : ℕ) (chat : Chat) (s : ChatSystem)
    → (add_to_participants address chat.participants s.chat_lists []).0 ≡ true
    → add_on_server address chat s
      ≡ returned true (
          register_chat address chat (record s {
            chat_lists = (add_to_participants address chat.participants s.chat_lists []).1;
          }))
unfolding add_on_server
add_on_server-eq-true address chat s h = rw (h, add_on_server)

add_on_server-eq-false :
    (address : ℕ) (chat : Chat) (s : ChatSystem)
    → (add_to_participants address chat.participants s.chat_lists []).0 ≡ false
    → add_on_server address chat s
      ≡ returned false (record s {
        chat_lists =
            roll_back address
              (add_to_participants address chat.participants s.chat_lists []).2
              (add_to_participants address chat.participants s.chat_lists []).1;
      })
unfolding add_on_server
add_on_server-eq-false address chat s h = rw (h, add_on_server)

pub server_side :
    (address : ℕ) (chat : Chat) (s : ChatSystem)
    → s.is_server_status ≡ true
    → add_chat_to_instance (some (address, chat)) s ≡ add_on_server address chat s
unfolding add_chat_to_instance
server_side address chat s h = rw h

-- On a server addChatToInstance always returns for a chat that is no null pointer. Where no user
-- had the chat in the list before, it returns true, or it returns false with the chats, the map of
-- ids and the chat list of each user as they were.
pub add_chat_to_instance-atomic :
    (address : ℕ) (chat : Chat) (s : ChatSystem)
    → s.is_server_status ≡ true
    → IsAbsent address s.chat_lists
    → ((after : ChatSystem) × (add_chat_to_instance (some (address, chat)) s ≡ returned true after))
      ⊎ ((after : ChatSystem) × (add_chat_to_instance (some (address, chat)) s
            ≡ returned false after)
          × (after.chats ≡ s.chats)
          × (after.chat_id_chat_map ≡ s.chat_id_chat_map)
          × HasSameLists s.chat_lists after.chat_lists)
add_chat_to_instance-atomic address chat s server absent =
    let outcome = add_to_participants address chat.participants s.chat_lists [] in
    elim (Bool-cases outcome.0) [
      | inl done ↦
          inl (_, server_side address chat s server ∙ add_on_server-eq-true address chat s done)
      | inr failed ↦ inr (
        record s { chat_lists = roll_back address outcome.2 outcome.1 },
        server_side address chat s server ∙ add_on_server-eq-false address chat s failed,
        refl,
        refl,
        roll_back-IsAddedFor address outcome.2 s.chat_lists outcome.1 absent (
            add_to_participants-IsAddedFor address chat.participants [] s.chat_lists s.chat_lists
              (nobody address s.chat_lists)),
      )
    ]

assign-IsPresent :
    (chat user : ℕ) (l : List ℕ) (lists : List (ℕ × List ℕ)) (p : Participant)
    → IsPresent lists p
    → IsPresent (assign user (add_to_list chat l) lists) p
assign-IsPresent chat user l lists p (other, k, there, listed) =
    let found = find-assign user other (add_to_list chat l) lists in
    elim (Bool-cases (user == other)) [
      | inl equal ↦ (other, add_to_list chat l, there, found ∙ rw equal)
      | inr differ ↦ (other, k, there, found ∙ rw differ listed)
    ]

addresses-some :
    (p : Participant) (ps : List Participant) (user : ℕ)
    → p.user ≡ some user
    → addresses (p ∷ ps) ≡ user ∷ addresses ps
unfolding addresses
addresses-some p ps user h = rw (h, addresses)

-- With all participants present the loop ends, having added the chat for each.
pub add_to_participants-present :
    (chat : ℕ) (ps : List Participant) (lists : List (ℕ × List ℕ)) (added : List ℕ)
    → All (IsPresent lists) ps
    → ((add_to_participants chat ps lists added).0 ≡ true)
      × ((add_to_participants chat ps lists added).2 ≡ added ++ addresses ps)
unfolding add_to_participants addresses
add_to_participants-present chat [] lists added h = (refl, sym (append-nil added))
add_to_participants-present chat (p ∷ ps) lists added ((user, l, there, listed), h) =
    let next = assign user (add_to_list chat l) lists in
    let (done, all) =
      add_to_participants-present chat ps next (added ++ user ∷ [])
        (All-imp (IsPresent lists) (IsPresent next) ps (assign-IsPresent chat user l lists) h) in
    rw
      (
        add_to_participants-step chat p ps lists added user l there listed,
        addresses-some p ps user there,
      )
      (done, all ∙ append_assoc added (user ∷ []) (addresses ps))

-- Where the user of each participant is alive and has a chat list, addChatToInstance on a server
-- returns true, the chat is the last of the chats, and it has been added once to the list of
-- each participant that did not hold it, and to no other list.
pub add_chat_to_instance-present :
    (address : ℕ) (chat : Chat) (s : ChatSystem)
    → s.is_server_status ≡ true
    → All (IsPresent s.chat_lists) chat.participants
    → (after : ChatSystem) × (add_chat_to_instance (some (address, chat)) s ≡ returned true after)
      × (after.chats ≡ s.chats ++ address ∷ [])
      × IsAddedFor address (addresses chat.participants) s.chat_lists after.chat_lists
unfolding register_chat
add_chat_to_instance-present address chat s server present =
    let outcome = add_to_participants address chat.participants s.chat_lists [] in
    let (done, all) =
      add_to_participants-present address chat.participants s.chat_lists [] present in
    (
      register_chat address chat (record s { chat_lists = outcome.1 }),
      server_side address chat s server ∙ add_on_server-eq-true address chat s done,
      refl,
      subst (λ added. IsAddedFor address added s.chat_lists outcome.1) all
          (add_to_participants-IsAddedFor address chat.participants [] s.chat_lists s.chat_lists
            (nobody address s.chat_lists)),
    )
