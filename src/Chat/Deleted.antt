-- ===== src/Chat/Deleted.antt =====
-- What is deleted in a chat of Shark_2_0_CLI/src/core/chat/chat.cpp: messages for a login, users
-- from the chat; and the index of times under a new message id.
use chat_bot.Base.{
  ℕ, ◌≡◌, refl, subst, ◌∙◌, inl, inr, Bool, true, false, not, ◌||◌, ◌&&◌, Option, none, some, List,
  [], ◌∷◌, arith, ◌==◌, if◌then◌else◌, Bool-cases, Option-cases,
}
use chat_bot.Base.Maps.{find, insert, assign, find-assign, find-erase, find-insert_fresh}
use chat_bot.Wire.Reader.{Bytes}
use chat_bot.Text.Utf8.{same_text}
use chat_bot.Chat.{
  Chat, set_deleted_message_map, update_message_id_to_time_stamp, is_user, deleted_flag,
  get_user_deleted_from_chat, mark_deleted, set_user_deleted_from_chat,
}
use chat_bot.Chat.Parts.{User, Participant, bytes_key, nat_key, same_text_iff, has}

unfoldable pub deleted_of : ℕ → Option (List ℕ) → Bool
deleted_of id none = false
deleted_of id (some ids) = has id ids

-- Whether the login has deleted the message.
unfoldable pub is_deleted : Bytes → ℕ → Chat → Bool
is_deleted login id chat = deleted_of id (find login chat.deleted_messages_map)

-- The three branches.
set_deleted-fresh :
    (login : Bytes) (id : ℕ) (chat : Chat)
    → find login chat.deleted_messages_map ≡ none
    → set_deleted_message_map login id chat ≡ (
      true,
      record chat { deleted_messages_map = insert login (id ∷ []) chat.deleted_messages_map },
    )
unfolding set_deleted_message_map
set_deleted-fresh login id chat h = rw (h, set_deleted_message_map)

set_deleted-again :
    (login : Bytes) (id : ℕ) (chat : Chat) (ids : List ℕ)
    → find login chat.deleted_messages_map ≡ some ids
    → has id ids ≡ true
    → set_deleted_message_map login id chat ≡ (false, chat)
unfolding set_deleted_message_map
set_deleted-again login id chat ids h again = rw (h, again, set_deleted_message_map)

set_deleted-more :
    (login : Bytes) (id : ℕ) (chat : Chat) (ids : List ℕ)
    → find login chat.deleted_messages_map ≡ some ids
    → has id ids ≡ false
    → set_deleted_message_map login id chat ≡ (
      true,
      record chat { deleted_messages_map = assign login (id ∷ ids) chat.deleted_messages_map },
    )
unfolding set_deleted_message_map
set_deleted-more login id chat ids h more = rw (h, more, set_deleted_message_map)

-- One more id under a login.
deleted_of-grown :
    (user_login login : Bytes) (new id : ℕ) (ids : List ℕ) (before after : List (Bytes × List ℕ))
    → ((i : ℕ) → deleted_of i (find user_login before) ≡ has i ids)
    → find login after
      ≡ (if same_text user_login login then some (new ∷ ids) else find login before)
    → deleted_of id (find login after)
      ≡ (same_text user_login login && new == id || deleted_of id (find login before))
unfolding deleted_of has
deleted_of-grown user_login login new id ids before after old grown =
    elim (Bool-cases (same_text user_login login)) [
      | inl equal ↦
          let here : deleted_of id (find login before) ≡ has id ids =
            subst (λ l. deleted_of id (find l before) ≡ has id ids)
              ((same_text_iff user_login login).0 equal) (old id) in
          rw (grown, here, equal) refl
      | inr other ↦ rw (grown, other) refl
    ]

-- An id that is deleted already adds nothing.
deleted_of-kept :
    (user_login login : Bytes) (new id : ℕ) (entries : List (Bytes × List ℕ))
    → deleted_of new (find user_login entries) ≡ true
    → deleted_of id (find login entries)
      ≡ (same_text user_login login && new == id || deleted_of id (find login entries))
deleted_of-kept user_login login new id entries h =
    elim (Bool-cases (same_text user_login login && new == id)) [
      | inl equal ↦
          let same_login = (same_text_iff user_login login).0 (ground (arith, equal)) in
          let same_id : new ≡ id = ground (arith, equal) in
          let there : deleted_of id (find login entries) ≡ true =
            subst (λ l. deleted_of id (find l entries) ≡ true) same_login
              (subst (λ i. deleted_of i (find user_login entries) ≡ true) same_id h) in
          rw (equal, there)
      | inr other ↦ rw other
    ]

deleted_of-none : (o : Option (List ℕ)) (i : ℕ) → o ≡ none → deleted_of i o ≡ has i []
unfolding deleted_of has
deleted_of-none o i h = rw h

deleted_of-some :
    (o : Option (List ℕ)) (ids : List ℕ) (i : ℕ) → o ≡ some ids → deleted_of i o ≡ has i ids
unfolding deleted_of
deleted_of-some o ids i h = rw h

set_deleted-there :
    (user_login : Bytes) (deleted_message_id : ℕ) (chat : Chat) (login : Bytes) (id : ℕ)
    (ids : List ℕ)
    → find user_login chat.deleted_messages_map ≡ some ids
    → ((set_deleted_message_map user_login deleted_message_id chat).0
        ≡ not (is_deleted user_login deleted_message_id chat))
      × (is_deleted login id (set_deleted_message_map user_login deleted_message_id chat).1
          ≡ (same_text user_login login && deleted_message_id == id || is_deleted login id chat))
unfolding is_deleted
set_deleted-there user_login deleted_message_id chat login id ids there =
    let entries = chat.deleted_messages_map in
    let old = deleted_of-some (find user_login entries) ids deleted_message_id there in
    elim (Bool-cases (has deleted_message_id ids)) [
      | inl again ↦ rw (set_deleted-again user_login deleted_message_id chat ids there again) (
        rw (old, again),
        deleted_of-kept user_login login deleted_message_id id entries (old ∙ again),
      )
      | inr more ↦ rw (set_deleted-more user_login deleted_message_id chat ids there more) (
        rw (old, more),
        deleted_of-grown user_login login deleted_message_id id ids entries
            (assign user_login (deleted_message_id ∷ ids) entries)
            (λ i. deleted_of-some (find user_login entries) ids i there)
            (find-assign user_login login (deleted_message_id ∷ ids) entries),
      )
    ]

-- setDeletedMessageMap answers true exactly if the login had not deleted the message before, and
-- from then on just the login and the message given count as deleted besides those that did.
pub set_deleted_message_map_lem :
    (user_login : Bytes) (deleted_message_id : ℕ) (chat : Chat) (login : Bytes) (id : ℕ)
    → ((set_deleted_message_map user_login deleted_message_id chat).0
        ≡ not (is_deleted user_login deleted_message_id chat))
      × (is_deleted login id (set_deleted_message_map user_login deleted_message_id chat).1
          ≡ (same_text user_login login && deleted_message_id == id || is_deleted login id chat))
unfolding is_deleted has
set_deleted_message_map_lem user_login deleted_message_id chat login id =
    let entries = chat.deleted_messages_map in
    elim (Option-cases (find user_login entries)) [
      | inl fresh ↦ rw (set_deleted-fresh user_login deleted_message_id chat fresh) (
        rw (deleted_of-none (find user_login entries) deleted_message_id fresh),
        deleted_of-grown user_login login deleted_message_id id [] entries
            (insert user_login (deleted_message_id ∷ []) entries)
            (λ i. deleted_of-none (find user_login entries) i fresh)
            (find-insert_fresh user_login login (deleted_message_id ∷ []) entries fresh),
      )
      | inr (ids, there) ↦ set_deleted-there user_login deleted_message_id chat login id ids there
    ]

deleted_flag-mark_deleted :
    (user other : User) (ps : List Participant)
    → deleted_flag other (mark_deleted user ps)
      ≡ (user.address == other.address || deleted_flag other ps)
unfolding deleted_flag mark_deleted is_user
deleted_flag-mark_deleted user other [] = ground arith
deleted_flag-mark_deleted user other (p ∷ ps) =
    ground (arith, deleted_flag-mark_deleted user other ps)

-- After setUserDeletedFromChat the user counts as deleted from the chat, participant or not, and
-- every other user as before.
pub get_user_deleted-set_user_deleted :
    (user other : User) (chat : Chat)
    → get_user_deleted_from_chat other (set_user_deleted_from_chat user chat)
      ≡ (user.address == other.address || get_user_deleted_from_chat other chat)
unfolding get_user_deleted_from_chat set_user_deleted_from_chat
get_user_deleted-set_user_deleted user other chat =
    deleted_flag-mark_deleted user other chat.participants

-- updateMessageIdToTimeStamp moves the time of the old id to the new id and leaves the times of
-- all other ids; without an old time it changes nothing; and under its own id a time is lost.
pub update_message_id_to_time_stamp_lem :
    (old new j : ℕ) (chat : Chat)
    → find j (update_message_id_to_time_stamp old new chat).message_id_to_time_stamp
      ≡ elim (find old chat.message_id_to_time_stamp) [
        | none ↦ find j chat.message_id_to_time_stamp
        | some t ↦
            if old == j
            then none
            else if new == j
            then some t
            else find j chat.message_id_to_time_stamp
      ]
unfolding update_message_id_to_time_stamp
update_message_id_to_time_stamp_lem old new j chat =
    elim (Option-cases (find old chat.message_id_to_time_stamp)) [
      | inl missing ↦ rw (missing, update_message_id_to_time_stamp)
      | inr (t, there) ↦
          rw (there, update_message_id_to_time_stamp)
            (find-erase old j (assign new t chat.message_id_to_time_stamp)
              ∙ rw (find-assign new j t chat.message_id_to_time_stamp))
    ]
