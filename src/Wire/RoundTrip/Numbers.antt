-- ===== src/Wire/RoundTrip/Numbers.antt =====
-- Words, strings and booleans read back.
use chat_bot.Base.{
  ℕ, ◌+◌, ◌*◌, ◌/◌, ◌%◌, ◌^◌, ◌≤◌, ◌<◌, ◌≡◌, refl, subst, Bool, true, false, [], ◌∷◌, ◌++◌, arith,
  length, length-append, take-length_append, drop-length_append, le→ltb,
}
use chat_bot.Wire.Host.{
  Host, to_big_endian64, from_big_endian64, to_big_endian64-lt, from-to_big_endian64,
}
use chat_bot.Wire.Reader.{
  Bytes, pure, ◌>>=◌, next, next_range, next_word, next_long, next_bool, read_u32, read_u64,
  read_string, read_string_unchecked,
}
use chat_bot.Wire.Encode.{word_bytes, long_bytes, bool_byte, write_u32, write_u64, write_string}
use chat_bot.Wire.RoundTrip.Rules.{Reads, Reads-bind, Reads-last, Reads-need}

pub length-word_bytes : (n : ℕ) → length (word_bytes n) ≡ 4
unfolding word_bytes
length-word_bytes n = refl

pub length-long_bytes : (n : ℕ) → length (long_bytes n) ≡ 8
unfolding long_bytes word_bytes
length-long_bytes n = refl

-- The four bytes of a 32-bit word make it up.
bytes_of_word :
    (n : ℕ)
    → n < 2 ^ 32
    → n / 2 ^ 24 % 256 * 2 ^ 24 + n / 2 ^ 16 % 256 * 2 ^ 16 + n / 2 ^ 8 % 256 * 2 ^ 8 + n % 256 ≡ n
bytes_of_word n h = omega arith

pub Reads-word : (n : ℕ) → n < 2 ^ 32 → Reads next_word (word_bytes n) n
unfolding next_word word_bytes next ◌>>=◌ pure
Reads-word n h = record { run = λ rest. rw (bytes_of_word n h) }

pub Reads-long : (n : ℕ) → n < 2 ^ 64 → Reads next_long (long_bytes n) n
unfolding next_long long_bytes
Reads-long n h =
    let whole : n / 2 ^ 32 * 2 ^ 32 + n % 2 ^ 32 ≡ n = omega arith in
    subst (Reads next_long (long_bytes n)) whole (
      Reads-bind _ (Reads-word (n / 2 ^ 32) (omega arith))
        (Reads-last (λ low. n / 2 ^ 32 * 2 ^ 32 + low) (Reads-word (n % 2 ^ 32) (omega arith))))

pub Reads-bool : (b : Bool) → Reads next_bool (bool_byte b ∷ []) b
unfolding next_bool bool_byte next ◌>>=◌ pure
Reads-bool true = record { run = λ rest. refl }
Reads-bool false = record { run = λ rest. refl }

pub Reads-next : (b : ℕ) → Reads next (b ∷ []) b
unfolding next
Reads-next b = record { run = λ rest. refl }

pub Reads-range : (s : Bytes) → Reads (next_range (length s)) s s
unfolding next_range
Reads-range s = record {
  run = λ rest. rw (
    le→ltb (length (s ++ rest)) (length s) (omega (arith, length-append s rest)),
    take-length_append s rest,
    drop-length_append s rest,
  );
}

module _ (host : Host) where
  pub length-write_u32 : (n : ℕ) → length (write_u32 host n) ≡ 4
  unfolding write_u32
  length-write_u32 n = length-word_bytes _

  pub length-write_u64 : (n : ℕ) → length (write_u64 host n) ≡ 8
  unfolding write_u64
  length-write_u64 n = length-long_bytes _

  pub write_u32_leads : (n : ℕ) (rest : Bytes) → 4 ≤ length (write_u32 host n ++ rest)
  write_u32_leads n rest = omega (arith, length-append (write_u32 host n) rest, length-write_u32 n)

  pub write_u64_leads : (n : ℕ) (rest : Bytes) → 8 ≤ length (write_u64 host n ++ rest)
  write_u64_leads n rest = omega (arith, length-append (write_u64 host n) rest, length-write_u64 n)

  -- A number is read back modulo 2 ^ 32 from its 32-bit form.
  pub Reads-u32_mod : (n : ℕ) → Reads (read_u32 host) (write_u32 host n) (n % 2 ^ 32)
  unfolding read_u32 write_u32
  Reads-u32_mod n =
      rw (host.ntohl-htonl (n % 2 ^ 32) (omega arith)) at
        (Reads-last host.ntohl (Reads-word _ (host.htonl-lt (n % 2 ^ 32) (omega arith))))

  pub Reads-u32 : (n : ℕ) → n < 2 ^ 32 → Reads (read_u32 host) (write_u32 host n) n
  Reads-u32 n h =
      let small : n % 2 ^ 32 ≡ n = omega arith in
      subst (Reads (read_u32 host) (write_u32 host n)) small (Reads-u32_mod n)

  pub Reads-u64 : (n : ℕ) → n < 2 ^ 64 → Reads (read_u64 host) (write_u64 host n) n
  unfolding read_u64 write_u64
  Reads-u64 n h = rw (from-to_big_endian64 host n h) at (
      Reads-last (from_big_endian64 host)
        (Reads-long (to_big_endian64 host n) (to_big_endian64-lt host n)))

  pub Reads-string_unchecked :
      (s : Bytes) → length s < 2 ^ 32 → Reads (read_string_unchecked host) (write_string host s) s
  unfolding read_string_unchecked write_string
  Reads-string_unchecked s h = Reads-bind _ (Reads-u32 (length s) h) (Reads-range s)

  pub Reads-string :
      (s : Bytes) → length s < 2 ^ 32 → Reads (read_string host) (write_string host s) s
  unfolding read_string write_string
  Reads-string s h =
      Reads-need 4 (write_u32_leads (length s) s) (
        Reads-bind _ (Reads-u32 (length s) h) (Reads-need (length s) (omega arith) (Reads-range s)))
