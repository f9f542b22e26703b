-- ===== src/System/Create/Server.antt =====
-- createNewChatId of Shark_2_0_CLI/src/core/chat_system/chat_system.cpp on a server.
use chat_bot.Base.{
  ℕ, ◌+◌, ◌-◌, ◌%◌, ◌^◌, ◌<◌, ◌≡◌, ◌≢◌, refl, inl, inr, true, none, some, List, ap, ◌∙◌, ◌==◌,
  if◌then◌else◌, [], ◌∷◌, All, arith, ◌⊎◌, le→ltb, Option-cases,
}
use chat_bot.Base.Maps.{find, insert, find-insert_fresh}
use chat_bot.Chat.Parts.{nat_key}
use chat_bot.System.{ChatSystem, through_int, next_server_id, create_new_chat_id, create_on_server}
use chat_bot.System.Lists.{max_key}
use chat_bot.System.Create.{max_key-find, max_key-lt}

pub create_new_chat_id-server_side :
    (chat : ℕ) (s : ChatSystem)
    → s.is_server_status ≡ true
    → create_new_chat_id chat s ≡ some (create_on_server chat s)
unfolding create_new_chat_id
create_new_chat_id-server_side chat s server = rw server

find-nil : (id chat : ℕ) → find {V = ℕ} id [] ≢ some chat
unfolding find
find-nil id chat h = ground (arith, h)

max_key-head : (e : ℕ × ℕ) (es : List (ℕ × ℕ)) → max_key e.0 (e ∷ es) ≡ max_key e.0 es
unfolding max_key
max_key-head e es = rw (le→ltb e.0 e.0 (omega arith))

-- An int holds the ids below 2 ^ 31.
through_int-small : (n : ℕ) → n < 2 ^ 31 → through_int n ≡ n
unfolding through_int
through_int-small n h = ground arith

next_server_id-above :
    (ids : List (ℕ × ℕ)) (id chat : ℕ)
    → All (λ e. e.0 < 2 ^ 31 - 1) ids
    → find id ids ≡ some chat
    → id < next_server_id ids
unfolding next_server_id
next_server_id-above [] id chat small h = absurd (find-nil id chat h)
next_server_id-above (e ∷ es) id chat small h =
    let bound : max_key e.0 es < 2 ^ 31 - 1 = max_key-lt (2 ^ 31 - 1) e.0 es small.0 small.1 in
    let next : (max_key e.0 es + 1) % 2 ^ 64 ≡ max_key e.0 es + 1 = omega (arith, bound) in
    rw (next, through_int-small (max_key e.0 es + 1) (omega (arith, bound)))
      (omega (arith, max_key-find e.0 id chat (e ∷ es) h, max_key-head e es))

not_taken :
    (ids : List (ℕ × ℕ)) → All (λ e. e.0 < 2 ^ 31 - 1) ids → find (next_server_id ids) ids ≡ none
not_taken ids small = elim (Option-cases (find (next_server_id ids) ids)) [
  | inl free ↦ free
  | inr (chat, taken) ↦
      absurd (omega (arith, next_server_id-above ids (next_server_id ids) chat small taken))
]

create_on_server-nil :
    (chat : ℕ) (s : ChatSystem)
    → s.free_chat_server_id_set ≡ []
    → create_on_server chat s ≡ (
      next_server_id s.chat_id_chat_map,
      record s {
        chat_id_chat_map = insert (next_server_id s.chat_id_chat_map) chat s.chat_id_chat_map;
      },
    )
unfolding create_on_server
create_on_server-nil chat s h =
    let id = next_server_id s.chat_id_chat_map in
    ap
      (λ l. elim l [
        | [] ↦ (id, record s { chat_id_chat_map = insert id chat s.chat_id_chat_map })
        | value ∷ free ↦ (value, record s { free_chat_server_id_set = free })
      ])
      h

create_on_server-cons :
    (chat value : ℕ) (free : List ℕ) (s : ChatSystem)
    → s.free_chat_server_id_set ≡ value ∷ free
    → create_on_server chat s ≡ (value, record s { free_chat_server_id_set = free })
unfolding create_on_server
create_on_server-cons chat value free s h = rw (h, create_on_server)

pub List-cases : (xs : List ℕ) → (xs ≡ []) ⊎ ((y : ℕ) × (ys : List ℕ) × (xs ≡ y ∷ ys))
List-cases [] = inl refl
List-cases (y ∷ ys) = inr (y, ys, refl)

-- On a server whose map has ids below 2 ^ 31 - 1 only, createNewChatId returns. With a free id, it
-- is the first of them, which leaves the set, and the map of ids stays as it was. Without a free
-- id, it is one that no chat of the map has, and behind the call the map gives the chat under it
-- and every other chat under its own id.
pub create_new_chat_id-server :
    (chat other : ℕ) (s : ChatSystem)
    → s.is_server_status ≡ true
    → All (λ e. e.0 < 2 ^ 31 - 1) s.chat_id_chat_map
    → (id : ℕ) × (after : ChatSystem) × (create_new_chat_id chat s ≡ some (id, after))
      × (((s.free_chat_server_id_set ≡ id ∷ after.free_chat_server_id_set)
            × (after.chat_id_chat_map ≡ s.chat_id_chat_map))
          ⊎ ((s.free_chat_server_id_set ≡ [])
              × (find id s.chat_id_chat_map ≡ none)
              × (find other after.chat_id_chat_map
                  ≡ (if id == other then some chat else find other s.chat_id_chat_map))))
create_new_chat_id-server chat other s server small = elim (List-cases s.free_chat_server_id_set) [
  | inl empty ↦
      let id = next_server_id s.chat_id_chat_map in
      let new = not_taken s.chat_id_chat_map small in
      (
        id,
        record s { chat_id_chat_map = insert id chat s.chat_id_chat_map },
        create_new_chat_id-server_side chat s server ∙ ap some (create_on_server-nil chat s empty),
        inr (empty, new, find-insert_fresh id other chat s.chat_id_chat_map new),
      )
  | inr (value, free, taken) ↦ (
    value,
    record s { free_chat_server_id_set = free },
    create_new_chat_id-server_side chat s server
        ∙ ap some (create_on_server-cons chat value free s taken),
    inl (taken, refl),
  )
]
