-- ===== src/Wire/Reader.antt =====
-- Readers: the code of core/system/serialize.cpp that advances `offset` over `buffer`.
-- A reader's state is the part of `buffer` from `offset` on, so that `offset + n > buffer.size()`
-- reads `length rest < n`. Bytes are numbers below 256.
use chat_bot.Base.{
  ℕ, zero, suc, ◌+◌, ◌*◌, ◌^◌, Bool, List, [], ◌∷◌, ltb, not, ◌==◌, if◌then◌else◌, length, take,
  drop,
}
use chat_bot.Wire.Host.{Host, from_big_endian64}

-- The exceptions that serialisation, parsing and the handlers of requests throw, by the classes of
-- network_exception.h and, for the user that is not found, login_exception.h.
pub data Exception : Type 0 where
  wrong_packet_size unsupported_deserialize_type internal_data_error : Exception
  empty_packet header_wrong_type header_wrong_data user_not_found : Exception

-- What a call does: it returns, it throws, or it has no defined behaviour (an element past the end
-- of a vector, a null or wrongly typed pointer).
pub data Outcome {ℓ} (A : Type ℓ) : Type ℓ where
  ok : A → Outcome A
  throw : Exception → Outcome A
  fault : Outcome A

abbrev pub Bytes : Type 0
Bytes = List ℕ

abbrev pub Reader {ℓ} : Type ℓ → Type ℓ
Reader A = Bytes → Outcome (A × Bytes)

module _ {ℓ} {A : Type ℓ} where
  unfoldable pub pure : A → Reader A
  pure a bytes = ok (a, bytes)

  unfoldable pub fail : Exception → Reader A
  fail e bytes = throw e

  -- A call of another function, which does not touch this buffer.
  unfoldable pub call : Outcome A → Reader A
  call (ok a) bytes = ok (a, bytes)
  call (throw e) bytes = throw e
  call fault bytes = fault

infixl 5 ◌>>=◌ ◌>>◌
unfoldable pub ◌>>=◌ {ℓ κ} : {A : Type ℓ} {B : Type κ} → Reader A → (A → Reader B) → Reader B
◌>>=◌ m f bytes = elim (m bytes) [ ok (a, rest) ↦ f a rest | throw e ↦ throw e | fault ↦ fault ]

unfoldable pub ◌>>◌ {ℓ κ} : {A : Type ℓ} {B : Type κ} → Reader A → Reader B → Reader B
◌>>◌ m k = m >>= λ _. k

-- `buffer[offset++]`
unfoldable pub next : Reader ℕ
next [] = fault
next (b ∷ rest) = ok (b, rest)

-- `if (offset + n > buffer.size()) throw exc::WrongPacketSizeException();`
unfoldable pub need : ℕ → Reader (Unit {0})
need n bytes = if ltb (length bytes) n then throw wrong_packet_size else ok (tt, bytes)

-- The range from `buffer.begin() + offset` of n bytes, copied out; past the end it is no range.
unfoldable pub next_range : ℕ → Reader Bytes
next_range n bytes = if ltb (length bytes) n then fault else ok (take n bytes, drop n bytes)

-- Four bytes, highest first: the bytes are disjoint, so `|` of the shifted bytes is a sum.
unfoldable pub next_word : Reader ℕ
next_word = do
  b₀ ← next
  b₁ ← next
  b₂ ← next
  b₃ ← next
  pure (b₀ * 2 ^ 24 + b₁ * 2 ^ 16 + b₂ * 2 ^ 8 + b₃)

-- The loops over eight bytes, which shift the bytes in from the right or put each in its place.
unfoldable pub next_long : Reader ℕ
next_long = do high ← next_word; low ← next_word; pure (high * 2 ^ 32 + low)

-- `buffer[offset++] != 0`
unfoldable pub next_bool : Reader Bool
next_bool = do b ← next; pure (not (b == 0))

module _ (host : Host) where
  unfoldable pub read_u32 : Reader ℕ
  read_u32 = do word ← next_word; pure (host.ntohl word)

  unfoldable pub read_u64 : Reader ℕ
  read_u64 = do long ← next_long; pure (from_big_endian64 host long)

  -- readString of the classes that check the size of the buffer.
  unfoldable pub read_string : Reader Bytes
  read_string = do need 4; len ← read_u32; need len; next_range len

  -- readString of chatDTO, and the strings of the message classes: no size is checked.
  unfoldable pub read_string_unchecked : Reader Bytes
  read_string_unchecked = do len ← read_u32; next_range len

-- A counted loop that appends what each round reads.
unfoldable pub read_times {ℓ} : {A : Type ℓ} → ℕ → Reader A → Reader (List A)
read_times zero m = pure []
read_times (suc n) m = do a ← m; rest ← read_times n m; pure (a ∷ rest)
