-- ===== src/Wire/Safety/Rules.antt =====
-- A reader that stays within the buffer, on every buffer that still holds enough bytes.
use chat_bot.Base.{
  le→ltb, ℕ, ◌+◌, ◌≤◌, ◌≡◌, refl, ◌≢◌, ◌⊎◌, inl, inr, arith, ltb, ltb→le, Bool-cases, length, [],
  ◌∷◌,
}
use chat_bot.Wire.Host.{Host}
use chat_bot.Wire.Reader.{
  Outcome, ok, throw, fault, Bytes, Reader, pure, ◌>>=◌, ◌>>◌, next, need, next_range, next_word,
  next_long, next_bool, read_u32, read_u64, read_string, Exception,
}

pub record Safe {ℓ} {A : Type ℓ} (n : ℕ) (m : Reader A) : Type ℓ where
  pub run : (bytes : Bytes) → n ≤ length bytes → m bytes ≢ fault

-- On enough bytes, a reader that takes exactly `k` of them and returns.
pub record Takes {ℓ} {A : Type ℓ} (k : ℕ) (m : Reader A) : Type ℓ where
  pub run :
      (bytes : Bytes)
      → k ≤ length bytes
      → (a : A) × (rest : Bytes) × (m bytes ≡ ok (a, rest)) × (length bytes ≡ k + length rest)

pub Outcome-cases {ℓ} :
    {A : Type ℓ} (o : Outcome A)
    → ((a : A) × (o ≡ ok a)) ⊎ (((e : Exception) × (o ≡ throw e)) ⊎ (o ≡ fault))
Outcome-cases (ok a) = inl (a, refl)
Outcome-cases (throw e) = inr (inl (e, refl))
Outcome-cases fault = inr (inr refl)

pub throw-ne-ok {ℓ} : {A : Type ℓ} {x : Exception} {a : A} → throw x ≢ ok a
throw-ne-ok e = cc

pub fault-ne-ok {ℓ} : {A : Type ℓ} {a : A} → fault ≢ ok a
fault-ne-ok e = cc

module _ {ℓ κ} {A : Type ℓ} {B : Type κ} where
  pub bind-eq-ok :
      (m : Reader A) (f : A → Reader B) (bytes : Bytes) {r : B × Bytes}
      → (m >>= f) bytes ≡ ok r
      → (a : A) × (rest : Bytes) × (m bytes ≡ ok (a, rest)) × (f a rest ≡ ok r)
  unfolding ◌>>=◌
  bind-eq-ok m f bytes e = elim (Outcome-cases (m bytes)) [
    | inl ((a, rest), h) ↦ (a, rest, h, rw (h, ◌>>=◌) at e)
    | inr (inl (x, h)) ↦ absurd (throw-ne-ok (rw (h, ◌>>=◌) at e))
    | inr (inr h) ↦ absurd (fault-ne-ok (rw (h, ◌>>=◌) at e))
  ]

  pub Safe-bind :
      (n : ℕ) {m : Reader A} (f : A → Reader B)
      → Safe n m
      → ((a : A) → Safe 0 (f a))
      → Safe n (m >>= f)
  unfolding ◌>>=◌
  Safe-bind n {m} f h k = record {
    run = λ bytes enough. elim (Outcome-cases (m bytes)) [
      | inl ((a, rest), e) ↦ rw (e, ◌>>=◌) ((k a).run rest (omega arith))
      | inr (inl (x, e)) ↦ rw (e, ◌>>=◌) (λ p. cc)
      | inr (inr e) ↦ absurd (h.run bytes enough e)
    ];
  }

  pub Safe-take :
      (k n : ℕ) {m : Reader A} (f : A → Reader B)
      → Takes k m
      → ((a : A) → Safe n (f a))
      → Safe (k + n) (m >>= f)
  unfolding ◌>>=◌
  Safe-take k n {m} f h g = record {
    run = λ bytes enough.
        let (a, rest, e, size) = h.run bytes (omega arith) in
        rw (e, ◌>>=◌) ((g a).run rest (omega arith));
  }

  pub Takes-bind :
      (j k : ℕ) {m : Reader A} (f : A → Reader B)
      → Takes j m
      → ((a : A) → Takes k (f a))
      → Takes (j + k) (m >>= f)
  unfolding ◌>>=◌
  Takes-bind j k {m} f h g = record {
    run = λ bytes enough.
        let (a, rest, e, size) = h.run bytes (omega arith) in
        let (b, more, e', size') = (g a).run rest (omega arith) in
        (b, more, rw (e, ◌>>=◌) e', omega arith);
  }

module _ {ℓ} {A : Type ℓ} where
  pub Safe-pure : (a : A) → Safe 0 (pure a)
  unfolding pure
  Safe-pure a = record { run = λ bytes enough e. cc }

  pub Takes-pure : (a : A) → Takes 0 (pure a)
  unfolding pure
  Takes-pure a = record { run = λ bytes enough. (a, bytes, refl, omega arith) }

  pub Safe-need : (n k : ℕ) {m : Reader A} → Safe n m → Safe k (need n >> m)
  unfolding need ◌>>◌ ◌>>=◌
  Safe-need n k {m} h = record {
    run = λ bytes enough. elim (Bool-cases (ltb (length bytes) n)) [
      | inl short ↦ rw (short, ◌>>=◌) (λ p. cc)
      | inr long ↦ rw (long, ◌>>=◌) (h.run bytes (ltb→le _ _ long))
    ];
  }

pub Takes-next : Takes 1 next
Takes-next = record { run = one }
  where
    one :
        (bytes : Bytes)
        → 1 ≤ length bytes
        → (a : ℕ) × (rest : Bytes) × (next bytes ≡ ok (a, rest)) × (length bytes ≡ 1 + length rest)
    one [] h = elim h [ ]
    one (b ∷ rest) h = (b, rest, unfold next in refl, omega arith)

pub Takes-word : Takes 4 next_word
unfolding next_word
Takes-word = Takes-bind 1 3 _ Takes-next λ b₀.
    Takes-bind 1 2 _ Takes-next
      λ b₁. Takes-bind 1 1 _ Takes-next λ b₂. Takes-bind 1 0 _ Takes-next λ b₃. Takes-pure _

pub Takes-long : Takes 8 next_long
unfolding next_long
Takes-long = Takes-bind 4 4 _ Takes-word λ high. Takes-bind 4 0 _ Takes-word λ low. Takes-pure _

pub Takes-bool : Takes 1 next_bool
unfolding next_bool
Takes-bool = Takes-bind 1 0 _ Takes-next λ b. Takes-pure _

pub Safe-range : (n : ℕ) → Safe n (next_range n)
unfolding next_range
Safe-range n = record { run = λ bytes enough. rw (le→ltb (length bytes) n enough) (λ p. cc) }

module _ (host : Host) where
  pub Takes-u32 : Takes 4 (read_u32 host)
  unfolding read_u32
  Takes-u32 = Takes-bind 4 0 _ Takes-word λ word. Takes-pure _

  pub Takes-u64 : Takes 8 (read_u64 host)
  unfolding read_u64
  Takes-u64 = Takes-bind 8 0 _ Takes-long λ long. Takes-pure _

  pub Safe-string : Safe 0 (read_string host)
  unfolding read_string
  Safe-string = Safe-need 4 0 (Safe-take 4 0 _ Takes-u32 λ len. Safe-need len 0 (Safe-range len))
