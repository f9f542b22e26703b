-- ===== src/System/Create.antt =====
-- createNewChatId of Shark_2_0_CLI/src/core/chat_system/chat_system.cpp.
pub mod Server
use chat_bot.Base.{
  ℕ, zero, suc, ◌+◌, ◌-◌, ◌%◌, ◌^◌, ◌≤◌, ◌<◌, ◌≡◌, ◌≢◌, refl, subst, ◌∙◌, inl, inr, true, false,
  none, some, List, [], ◌∷◌, All, arith, ltb, ◌==◌, ==_iff, if◌then◌else◌, ◌⊎◌, le→ltb, Bool-cases,
  Option-cases,
}
use chat_bot.Base.Maps.{find, insert, find-insert_fresh}
use chat_bot.Chat.Parts.{nat_key}
use chat_bot.System.{
  ChatSystem, next_free_id, through_int, next_server_id, create_new_chat_id, create_on_server,
  create_on_client,
}
use chat_bot.System.Lists.{max_key}

-- No id of the map is above the bound.
abbrev pub IsBelow : ℕ → List (ℕ × ℕ) → Type 0
IsBelow bound ids = (id chat : ℕ) → find id ids ≡ some chat → id < bound

max_key-ge : (k : ℕ) (es : List (ℕ × ℕ)) → k ≤ max_key k es
unfolding max_key
max_key-ge k [] = omega arith
max_key-ge k (e ∷ es) = ground (arith, max_key-ge (if ltb k e.0 then e.0 else k) es)

pub max_key-find : (k id chat : ℕ) (es : List (ℕ × ℕ)) → find id es ≡ some chat → id ≤ max_key k es
unfolding max_key find
max_key-find k id chat [] h = absurd (ground (arith, h))
max_key-find k id chat ((j, v) ∷ es) h = ground (
  arith,
  h,
  max_key-find (if ltb k j then j else k) id chat es,
  max_key-ge (if ltb k j then j else k) es,
)

-- The largest key is a key, or the first candidate.
pub max_key-lt :
    (bound k : ℕ) (es : List (ℕ × ℕ)) → k < bound → All (λ e. e.0 < bound) es → max_key k es < bound
unfolding max_key
max_key-lt bound k [] less h = less
max_key-lt bound k (e ∷ es) less h =
    max_key-lt bound (if ltb k e.0 then e.0 else k) es (ground (arith, h.0)) h.1

-- The loop of the client returns the least id from the first candidate on that is not taken.
abbrev pub IsLeastFree : ℕ → List (ℕ × ℕ) → ℕ → Type 0
IsLeastFree first ids id =
    (first ≤ id) × (find id ids ≡ none) × ((j : ℕ) → first ≤ j → j < id → find j ids ≢ none)

next_free_id-none :
    (fuel id : ℕ) (ids : List (ℕ × ℕ))
    → find id ids ≡ none
    → next_free_id (suc fuel) id ids ≡ some id
unfolding next_free_id
next_free_id-none fuel id ids h = rw (h, next_free_id)

next_free_id-some :
    (fuel id chat : ℕ) (ids : List (ℕ × ℕ))
    → find id ids ≡ some chat
    → id + 1 < 2 ^ 64
    → next_free_id (suc fuel) id ids ≡ next_free_id fuel (id + 1) ids
unfolding next_free_id
next_free_id-some fuel id chat ids h small =
    let next : (id + 1) % 2 ^ 64 ≡ id + 1 = omega (arith, small) in rw (h, next_free_id, next)

next_free_id-IsLeastFree :
    (fuel id bound : ℕ) (ids : List (ℕ × ℕ))
    → IsBelow bound ids
    → bound < 2 ^ 64
    → 0 < fuel
    → bound + 1 ≤ id + fuel
    → (found : ℕ) × (next_free_id fuel id ids ≡ some found) × IsLeastFree id ids found
next_free_id-IsLeastFree zero id bound ids below small more enough = absurd (omega arith)
next_free_id-IsLeastFree (suc fuel) id bound ids below small more enough =
    elim (Option-cases (find id ids)) [
      | inl free ↦ (
        id,
        next_free_id-none fuel id ids free,
        (omega arith, free, λ j low high. absurd (omega arith)),
      )
      | inr (chat, taken) ↦
          let less : id < bound = below id chat taken in
          let (found, found_eq, (low, free, least)) =
            next_free_id-IsLeastFree fuel (id + 1) bound ids below small (omega (arith, less))
              (omega arith) in
          (
            found,
            next_free_id-some fuel id chat ids taken (omega (arith, less)) ∙ found_eq,
            (
              omega arith,
              free,
              λ j from to. elim (Bool-cases (id == j)) [
                | inl equal ↦ λ gone. absurd (
                    ground (
                      arith,
                      subst (λ i. find i ids ≡ some chat) ((==_iff id j).0 equal) taken,
                      gone,
                    ))
                | inr differ ↦ least j (ground (arith, differ)) to
              ],
            ),
          )
    ]

create_on_client-some :
    (chat id : ℕ) (s : ChatSystem)
    → next_free_id (max_key 0 s.chat_id_chat_map + 2) s.next_chat_id_client s.chat_id_chat_map
      ≡ some id
    → create_on_client chat s
      ≡ some (
        id,
        record s {
          next_chat_id_client = (id + 1) % 2 ^ 64;
          chat_id_chat_map = insert id chat s.chat_id_chat_map;
        },
      )
unfolding create_on_client
create_on_client-some chat id s h = rw (h, create_on_client)

client_side :
    (chat : ℕ) (s : ChatSystem)
    → s.is_server_status ≡ false
    → create_new_chat_id chat s ≡ create_on_client chat s
unfolding create_new_chat_id
client_side chat s client = rw client

-- On a client createNewChatId ends, with the least id from the next one on that no chat has, and
-- this id finds the chat afterwards, as long as all ids of the map are below 2 ^ 64 - 1.
pub create_new_chat_id-client :
    (chat : ℕ) (s : ChatSystem)
    → s.is_server_status ≡ false
    → All (λ e. e.0 < 2 ^ 64 - 1) s.chat_id_chat_map
    → (id : ℕ) × (after : ChatSystem) × (create_new_chat_id chat s ≡ some (id, after))
      × IsLeastFree s.next_chat_id_client s.chat_id_chat_map id
      × (find id after.chat_id_chat_map ≡ some chat)
create_new_chat_id-client chat s client small =
    let ids = s.chat_id_chat_map in
    let (id, found, least) =
      next_free_id-IsLeastFree (max_key 0 ids + 2) s.next_chat_id_client (max_key 0 ids + 1) ids
        (λ i v h. omega (arith, max_key-find 0 i v ids h))
        (omega (arith, max_key-lt (2 ^ 64 - 1) 0 ids (omega arith) small)) (omega arith)
        (omega arith) in
    (
      id,
      _,
      client_side chat s client ∙ create_on_client-some chat id s found,
      least,
      find-insert_fresh id id chat ids least.1 ∙ ground arith,
    )
