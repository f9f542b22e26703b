-- ===== src/Wire/Safety/Bounds.antt =====
-- The conversation classes read past the end of a short buffer.
use chat_bot.Base.{ℕ, ◌+◌, ◌<◌, ◌≡◌, arith, length, [], ◌∷◌, refl}
use native.Mathlib.Decide.{dec_lt}
use chat_bot.Wire.Host.{Host}
use chat_bot.Wire.Reader.{fault, Bytes, Reader, ◌>>=◌, next, next_word, next_long, read_u64}
use chat_bot.Wire.Decode.Conversation.{read_chat, read_message, read_message_chat}
use chat_bot.Wire.Safety.Rules.{Takes, Takes-next, Takes-word}

-- On fewer than `k` bytes the reader goes past the end.
pub record Overruns {ℓ} {A : Type ℓ} (k : ℕ) (m : Reader A) : Type ℓ where
  pub run : (bytes : Bytes) → length bytes < k → m bytes ≡ fault

module _ {ℓ κ} {A : Type ℓ} {B : Type κ} where
  pub Overruns-first :
      (k : ℕ) {m : Reader A} (f : A → Reader B) → Overruns k m → Overruns k (m >>= f)
  unfolding ◌>>=◌
  Overruns-first k f h = record { run = λ bytes short. rw (h.run bytes short, ◌>>=◌) }

  pub Overruns-bind :
      (j k : ℕ) {m : Reader A} (f : A → Reader B)
      → Takes j m
      → Overruns j m
      → ((a : A) → Overruns k (f a))
      → Overruns (j + k) (m >>= f)
  unfolding ◌>>=◌
  Overruns-bind j k {m} f t h g = record {
    run = λ bytes short. elim (dec_lt (length bytes) j) [
      | yes less ↦ rw (h.run bytes less, ◌>>=◌)
      | no more ↦
          let (a, rest, e, size) = t.run bytes (omega arith) in
          rw (e, ◌>>=◌) ((g a).run rest (omega arith))
    ];
  }

Overruns-next : Overruns 1 next
Overruns-next = record { run = one }
  where
    one : (bytes : Bytes) → length bytes < 1 → next bytes ≡ fault
    one [] h = unfold next in refl
    one (b ∷ rest) h = absurd (omega arith)

Overruns-word : Overruns 4 next_word
unfolding next_word
Overruns-word = Overruns-bind 1 3 _ Takes-next Overruns-next λ b₀.
    Overruns-bind 1 2 _ Takes-next Overruns-next
      λ b₁. Overruns-bind 1 1 _ Takes-next Overruns-next λ b₂. Overruns-first 1 _ Overruns-next

Overruns-long : Overruns 8 next_long
unfolding next_long
Overruns-long =
    Overruns-bind 4 4 _ Takes-word Overruns-word λ high. Overruns-first 4 _ Overruns-word

module _ (host : Host) where
  Overruns-u64 : Overruns 8 (read_u64 host)
  unfolding read_u64
  Overruns-u64 = Overruns-first 8 _ Overruns-long

  pub Overruns-chat : Overruns 8 (read_chat host)
  unfolding read_chat
  Overruns-chat = Overruns-first 8 _ Overruns-u64

  pub Overruns-message : Overruns 8 (read_message host)
  unfolding read_message
  Overruns-message = Overruns-first 8 _ Overruns-u64

  pub Overruns-message_chat : (unset : ℕ) → Overruns 8 (read_message_chat host unset)
  unfolding read_message_chat
  Overruns-message_chat unset = Overruns-first 8 _ Overruns-u64
