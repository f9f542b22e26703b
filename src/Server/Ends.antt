-- ===== src/Server/Ends.antt =====
-- How the calls of Shark_2_0_CLI/src/server/server_session.cpp end: postconditions of an outcome.
use chat_bot.Base.{◌≡◌, subst, refl, Bool, true, false, if◌then◌else◌}
use chat_bot.Wire.Reader.{Outcome, ok, throw, fault}
use chat_bot.Server.{◌>>=◌}

-- The call returns, and what it returns has the property.
abbrev pub Returns {ℓ} : {A : Type ℓ} → (A → Type 0) → Outcome A → Type 0
Returns P (ok a) = P a
Returns P (throw e) = ⊥
Returns P fault = ⊥

-- What the call returns has the property, where it returns.
abbrev pub Ensures {ℓ} : {A : Type ℓ} → (A → Type 0) → Outcome A → Type 0
Ensures P (ok a) = P a
Ensures P (throw e) = Unit
Ensures P fault = Unit

pub Returns-bind {ℓ κ} :
    {A : Type ℓ} {B : Type κ} (P : A → Type 0) (R : B → Type 0) (m : Outcome A) (f : A → Outcome B)
    → Returns P m
    → ((a : A) → P a → Returns R (f a))
    → Returns R (m >>= f)
Returns-bind P R (ok a) f h rest = rest a h
Returns-bind P R (throw e) f h rest = absurd h
Returns-bind P R fault f h rest = absurd h

pub Ensures-bind {ℓ κ} :
    {A : Type ℓ} {B : Type κ} (P : A → Type 0) (R : B → Type 0) (m : Outcome A) (f : A → Outcome B)
    → Ensures P m
    → ((a : A) → P a → Ensures R (f a))
    → Ensures R (m >>= f)
Ensures-bind P R (ok a) f h rest = rest a h
Ensures-bind P R (throw e) f h rest = tt
Ensures-bind P R fault f h rest = tt

-- A call that changes no state.
pub Ensures-any {ℓ κ} :
    {A : Type ℓ} {B : Type κ} (R : B → Type 0) (m : Outcome A) (f : A → Outcome B)
    → ((a : A) → Ensures R (f a))
    → Ensures R (m >>= f)
Ensures-any R (ok a) f rest = rest a
Ensures-any R (throw e) f rest = tt
Ensures-any R fault f rest = tt

pub Returns-Ensures {ℓ} : {A : Type ℓ} (P : A → Type 0) (m : Outcome A) → Returns P m → Ensures P m
Returns-Ensures P (ok a) h = h
Returns-Ensures P (throw e) h = tt
Returns-Ensures P fault h = tt

pub Returns-ok {ℓ} :
    {A : Type ℓ} (P : A → Type 0) (m : Outcome A) → Returns P m → (a : A) × (m ≡ ok a) × P a
Returns-ok P (ok a) h = (a, refl, h)
Returns-ok P (throw e) h = absurd h
Returns-ok P fault h = absurd h

pub Ensures-ok {ℓ} :
    {A : Type ℓ} (P : A → Type 0) (m : Outcome A) (a : A) → Ensures P m → m ≡ ok a → P a
Ensures-ok P m a h eq = subst (Ensures P) eq h

pub Ensures-if {ℓ} :
    {A : Type ℓ} (P : A → Type 0) (b : Bool) (then_part else_part : Outcome A)
    → Ensures P then_part
    → Ensures P else_part
    → Ensures P (if b then then_part else else_part)
Ensures-if P true then_part else_part h k = h
Ensures-if P false then_part else_part h k = k

-- What holds of both branches holds of the test.
pub branches {ℓ} :
    {A : Type ℓ} (P : A → Type 0) (b : Bool) (then_part else_part : A)
    → P then_part
    → P else_part
    → P (if b then then_part else else_part)
branches P true then_part else_part h k = h
branches P false then_part else_part h k = k

pub Ensures-imp {ℓ} :
    {A : Type ℓ} (P R : A → Type 0) (m : Outcome A)
    → ((a : A) → P a → R a)
    → Ensures P m
    → Ensures R m
Ensures-imp P R (ok a) f h = f a h
Ensures-imp P R (throw e) f h = tt
Ensures-imp P R fault f h = tt
