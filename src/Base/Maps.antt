-- ===== src/Base/Maps.antt =====
-- The std::unordered_map and std::map of the code as lists of entries, over keys with a test of
-- equality. The order of the entries is not observed.
use mathlib.Core.Path.{◌≡◌, refl}
use mathlib.Core.Logic.{◌↔◌}
use mathlib.Core.Bool.{Bool, true}
use mathlib.Core.Option.{Option, none, some}
use mathlib.Core.List.{List, [], ◌∷◌}
use native.Mathlib.Omega.{arith}
use chat_bot.Base.Tests.{if◌then◌else◌}

-- A type whose equality is tested.
pub record Key {ℓ} (K : Type ℓ) : Type ℓ where
  pub same : K → K → Bool
  pub same_iff : (a b : K) → (same a b ≡ true) ↔ (a ≡ b)

module _ {ℓ κ} {K : Type ℓ} {V : Type κ} ⦃key : Key K⦄ where
  open key use {same, same_iff}

  unfoldable pub find : K → List (K × V) → Option V
  find k [] = none
  find k ((j, v) ∷ entries) = let later = find k entries in if same j k then some v else later

  -- insert, which changes nothing where the key is there.
  unfoldable pub insert : K → V → List (K × V) → List (K × V)
  insert k v entries = elim (find k entries) [ some _ ↦ entries | none ↦ (k, v) ∷ entries ]

  -- insert_or_assign, and an assignment through operator[].
  unfoldable pub assign : K → V → List (K × V) → List (K × V)
  assign k v [] = (k, v) ∷ []
  assign k v ((j, w) ∷ entries) =
      let later = assign k v entries in if same j k then (k, v) ∷ entries else (j, w) ∷ later

  unfoldable pub erase : K → List (K × V) → List (K × V)
  erase k [] = []
  erase k ((j, w) ∷ entries) =
      let later = erase k entries in if same j k then later else (j, w) ∷ later

  pub insert_old :
      (k : K) (v w : V) (entries : List (K × V))
      → find k entries ≡ some w
      → insert k v entries ≡ entries
  unfolding insert
  insert_old k v w entries old = rw (old, insert)

  pub find-insert_fresh :
      (k j : K) (v : V) (entries : List (K × V))
      → find k entries ≡ none
      → find j (insert k v entries) ≡ (if same k j then some v else find j entries)
  unfolding find insert
  find-insert_fresh k j v entries fresh = rw (fresh, insert)

  pub find-assign :
      (k j : K) (v : V) (entries : List (K × V))
      → find j (assign k v entries) ≡ (if same k j then some v else find j entries)
  unfolding find assign
  find-assign k j v [] = refl
  find-assign k j v ((i, w) ∷ entries) =
      ground (arith, same_iff k j, same_iff i k, same_iff i j, find-assign k j v entries)

  pub find-erase :
      (k j : K) (entries : List (K × V))
      → find j (erase k entries) ≡ (if same k j then none else find j entries)
  unfolding find erase
  find-erase k j [] = ground arith
  find-erase k j ((i, w) ∷ entries) =
      ground (arith, same_iff k j, same_iff i k, same_iff i j, find-erase k j entries)
