-- ===== src/Server/Sound.antt =====
-- What holds of the state of the server of Shark_2_0_CLI/src/server/server_session.cpp between two
-- requests, and the changes of one chat or one user.
use chat_bot.Base.{
  ℕ, ◌≡◌, ◌⊎◌, sym, subst, ap, ◌∙◌, inl, inr, true, none, some, List, [], arith, ◌==◌,
  if◌then◌else◌, Bool-cases, Option-cases,
}
use chat_bot.Base.Maps.{find, insert, assign, find-assign, find-insert_fresh, insert_old}
use chat_bot.Wire.Reader.{Bytes}
use chat_bot.Text.Utf8.{same_text}
use chat_bot.Chat.{Chat}
use chat_bot.Chat.Parts.{bytes_key, nat_key}
use chat_bot.Chat.Invariant.{IsConsistent}
use chat_bot.System.{Account, add_user_to_system}
use chat_bot.Server.{Server, store_chat}
use chat_bot.Server.Dto.{UserDto}
use chat_bot.Server.Create.{new_account, create_user_srv}

-- Each chat agrees with itself.
abbrev pub HasConsistent : List (ℕ × Chat) → Type 0
HasConsistent heap = (address : ℕ) (chat : Chat) → find address heap ≡ some chat → IsConsistent chat

-- Each id finds a chat that is alive.
abbrev pub IsAlive : List (ℕ × ℕ) → List (ℕ × Chat) → Type 0
IsAlive ids heap =
    (id address : ℕ) → find id ids ≡ some address → (chat : Chat) × (find address heap ≡ some chat)

-- Each user who can be found has a list of chats.
abbrev pub IsListed : List (Bytes × Account) → List (ℕ × List ℕ) → Type 0
IsListed logins lists =
    (login : Bytes) (account : Account)
    → find login logins ≡ some account
    → (chat_list : List ℕ) × (find account.address lists ≡ some chat_list)

pub record IsSound (s : Server) : Type 0 where
  pub consistent : HasConsistent s.chat_heap
  pub alive : IsAlive s.system.chat_id_chat_map s.chat_heap
  pub listed : IsListed s.system.login_user_map s.system.chat_lists
  pub server : s.system.is_server_status ≡ true

-- As IsAlive, but for one address, at which a chat is still to be stored.
abbrev pub IsAliveBut : ℕ → List (ℕ × ℕ) → List (ℕ × Chat) → Type 0
IsAliveBut new ids heap =
    (id address : ℕ)
    → find id ids ≡ some address
    → (address ≡ new) ⊎ ((chat : Chat) × (find address heap ≡ some chat))

pub some_inj {ℓ} : {A : Type ℓ} (a b : A) → some a ≡ some b → a ≡ b
some_inj a b h = ap (λ o. elim o [ none ↦ a | some x ↦ x ]) h

pub insert-IsAliveBut :
    (new id : ℕ) (ids : List (ℕ × ℕ)) (heap : List (ℕ × Chat))
    → IsAliveBut new ids heap
    → IsAliveBut new (insert id new ids) heap
insert-IsAliveBut new id ids heap h j address found = elim (Option-cases (find id ids)) [
  | inl fresh ↦
      let at = find-insert_fresh id j new ids fresh in
      elim (Bool-cases (id == j)) [
        | inl equal ↦ inl (
            some_inj address new
              (sym found ∙ at ∙ ap (λ b. if b then some new else find j ids) equal))
        | inr differ ↦
            h j address (sym (at ∙ ap (λ b. if b then some new else find j ids) differ) ∙ found)
      ]
  | inr (old, taken) ↦ h j address (sym (ap (find j) (insert_old id new old ids taken)) ∙ found)
]

pub assign-IsAlive :
    (new : ℕ) (chat : Chat) (ids : List (ℕ × ℕ)) (heap : List (ℕ × Chat))
    → IsAliveBut new ids heap
    → IsAlive ids (assign new chat heap)
assign-IsAlive new chat ids heap h id address found =
    let at = find-assign new address chat heap in
    elim (Bool-cases (new == address)) [
      | inl equal ↦ (chat, at ∙ rw equal)
      | inr differ ↦ elim (h id address found) [
        | inl same ↦ absurd (ground (arith, same, differ))
        | inr (other, there) ↦ (other, at ∙ rw differ there)
      ]
    ]

pub assign-HasConsistent :
    (new : ℕ) (chat : Chat) (heap : List (ℕ × Chat))
    → IsConsistent chat
    → HasConsistent heap
    → HasConsistent (assign new chat heap)
assign-HasConsistent new chat heap here h address other found =
    let at = find-assign new address chat heap in
    elim (Bool-cases (new == address)) [
      | inl equal ↦
          subst IsConsistent
            (some_inj chat other
              (sym (at ∙ ap (λ b. if b then some chat else find address heap) equal) ∙ found))
            here
      | inr differ ↦
          h address other
            (sym (at ∙ ap (λ b. if b then some chat else find address heap) differ) ∙ found)
    ]

-- A chat that is stored.
pub store_chat-IsSound :
    (address : ℕ) (chat : Chat) (s : Server)
    → IsSound s
    → IsConsistent chat
    → IsSound (store_chat address chat s)
unfolding store_chat
store_chat-IsSound address chat s h here = record {
  consistent = assign-HasConsistent address chat s.chat_heap here h.consistent;
  alive =
      assign-IsAlive address chat s.system.chat_id_chat_map s.chat_heap
        (λ id at found. inr (h.alive id at found));
  listed = h.listed;
  server = h.server;
}

-- An entry more, and all entries that were there.
insert-some :
    (address user : ℕ) (chat_list : List ℕ) (lists : List (ℕ × List ℕ))
    → find user lists ≡ some chat_list
    → (other : List ℕ) × (find user (insert address [] lists) ≡ some other)
insert-some address user chat_list lists found = elim (Option-cases (find address lists)) [
  | inl fresh ↦
      let at = find-insert_fresh address user [] lists fresh in
      elim (Bool-cases (address == user)) [
        | inl equal ↦ ([], at ∙ rw equal)
        | inr differ ↦ (chat_list, at ∙ rw differ found)
      ]
  | inr (old, taken) ↦ (chat_list, ap (find user) (insert_old address [] old lists taken) ∙ found)
]

insert_self :
    (address : ℕ) (lists : List (ℕ × List ℕ))
    → (other : List ℕ) × (find address (insert address [] lists) ≡ some other)
insert_self address lists = elim (Option-cases (find address lists)) [
  | inl fresh ↦ ([], find-insert_fresh address address [] lists fresh ∙ ground arith)
  | inr (old, taken) ↦ (old, ap (find address) (insert_old address [] old lists taken) ∙ taken)
]

insert-IsListed :
    (account : Account) (logins : List (Bytes × Account)) (lists : List (ℕ × List ℕ))
    → IsListed logins lists
    → IsListed (insert account.login account logins) (insert account.address [] lists)
insert-IsListed account logins lists h login other found =
    elim (Option-cases (find account.login logins)) [
      | inl fresh ↦
          let at = find-insert_fresh account.login login account logins fresh in
          elim (Bool-cases (same_text account.login login)) [
            | inl equal ↦
                subst
                  (λ (a : Account).
                    (l : List ℕ) × (find a.address (insert account.address [] lists) ≡ some l))
                  (some_inj account other (
                    sym (at ∙ ap (λ b. if b then some account else find login logins) equal)
                    ∙ found))
                  (insert_self account.address lists)
            | inr differ ↦
                let (l, there) = h login other (
                  sym (at ∙ ap (λ b. if b then some account else find login logins) differ)
                  ∙ found) in
                insert-some account.address other.address l lists there
          ]
      | inr (old, taken) ↦
          let (l, there) =
            h login other
              (sym (ap (find login) (insert_old account.login account old logins taken)) ∙ found) in
          insert-some account.address other.address l lists there
    ]

-- A user more.
pub create_user_srv-IsSound :
    (dto : UserDto) (s : Server) → IsSound s → IsSound (create_user_srv dto s)
unfolding create_user_srv add_user_to_system new_account
create_user_srv-IsSound dto s h = record {
  consistent = h.consistent;
  alive = h.alive;
  listed =
      insert-IsListed (new_account s.next_address dto) s.system.login_user_map s.system.chat_lists
        h.listed;
  server = h.server;
}
