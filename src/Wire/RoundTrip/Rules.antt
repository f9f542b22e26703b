-- ===== src/Wire/RoundTrip/Rules.antt =====
-- A reader reads a value off the front of the buffer; how that composes along a do block.
use chat_bot.Base.{
  ℕ, ◌≤◌, ◌≡◌, refl, List, [], ◌∷◌, ◌++◌, append_assoc, arith, All, le→ltb, length, length-append,
  map,
}
use chat_bot.Wire.Reader.{Outcome, ok, Bytes, Reader, pure, call, ◌>>=◌, ◌>>◌, need, read_times}
use chat_bot.Wire.Encode.{each}

-- On `bytes`, whatever follows them, `m` returns `a` and stops behind them.
pub record Reads {ℓ} {A : Type ℓ} (m : Reader A) (bytes : Bytes) (a : A) : Type ℓ where
  pub run : (rest : Bytes) → m (bytes ++ rest) ≡ ok (a, rest)

module _ {ℓ κ} {A : Type ℓ} {B : Type κ} where
  pub Reads-bind :
      {m : Reader A} (f : A → Reader B) {bytes more : Bytes} {a : A} {b : B}
      → Reads m bytes a
      → Reads (f a) more b
      → Reads (m >>= f) (bytes ++ more) b
  unfolding ◌>>=◌
  Reads-bind {m} f {bytes} {more} h k = record {
    run = λ rest. rw append_assoc (rw (h.run (more ++ rest), ◌>>=◌) (k.run rest));
  }

  -- The last read of a block, which ends in `pure`.
  pub Reads-last :
      {m : Reader A} (g : A → B) {bytes : Bytes} {a : A}
      → Reads m bytes a
      → Reads (m >>= λ x. pure (g x)) bytes (g a)
  unfolding ◌>>=◌ pure
  Reads-last g h = record { run = λ rest. rw (h.run rest, ◌>>=◌) }

  -- The last read of a block, whose result is handed to another function.
  pub Reads-last_call :
      {m : Reader A} (f : A → Outcome B) {bytes : Bytes} {a : A} {b : B}
      → Reads m bytes a
      → f a ≡ ok b
      → Reads (m >>= λ x. call (f x)) bytes b
  unfolding ◌>>=◌ call
  Reads-last_call f h e = record { run = λ rest. rw (h.run rest, ◌>>=◌) (rw (e, call)) }

-- A check of the size passes where that many bytes are about to be read.
pub Reads-need {κ} :
    {B : Type κ} (n : ℕ) {k : Reader B} {bytes : Bytes} {b : B}
    → n ≤ length bytes
    → Reads k bytes b
    → Reads (need n >> k) bytes b
unfolding need ◌>>◌ ◌>>=◌
Reads-need n {k} {bytes} fits h = record {
  run = λ rest.
      rw (le→ltb (length (bytes ++ rest)) n (omega (arith, length-append bytes rest)), ◌>>=◌)
        (h.run rest);
}

pub Reads-times {ℓ} :
    {A B : Type ℓ} (m : Reader B) (f : A → Bytes) (g : A → B) (P : A → Type 0)
    → ((a : A) → P a → Reads m (f a) (g a))
    → (items : List A) → All P items
    → Reads (read_times (length items) m) (each f items) (map g items)
unfolding read_times each pure
Reads-times m f g P h [] all = record { run = λ rest. refl }
Reads-times m f g P h (x ∷ xs) all =
    Reads-bind _ (h x all.0) (Reads-last _ (Reads-times m f g P h xs all.1))
