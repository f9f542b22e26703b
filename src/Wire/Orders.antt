-- ===== src/Wire/Orders.antt =====
-- The two byte orders that a host may have, and what hosts of different orders make of one
-- another's numbers. On a big-endian host htonl and ntohl change nothing; on a little-endian one
-- they reverse the four bytes.
use mathlib.Core.List.{reverse}
use chat_bot.Base.{ℕ, ◌+◌, ◌*◌, ◌/◌, ◌%◌, ◌^◌, ◌<◌, ◌≡◌, refl, arith, ◌++◌}
use chat_bot.Wire.Host.{Host, to_big_endian64}
use chat_bot.Wire.Reader.{ok, Bytes, read_u32}
use chat_bot.Wire.Encode.{word_bytes, long_bytes, write_u32, write_u64}
use chat_bot.Wire.RoundTrip.Rules.{Reads-last}
use chat_bot.Wire.RoundTrip.Numbers.{Reads-word}

unfoldable pub swap_bytes : ℕ → ℕ
swap_bytes x =
    x % 256 * 2 ^ 24 + x / 2 ^ 8 % 256 * 2 ^ 16 + x / 2 ^ 16 % 256 * 2 ^ 8 + x / 2 ^ 24 % 256

pub swap_bytes-lt : (x : ℕ) → x < 2 ^ 32 → swap_bytes x < 2 ^ 32
unfolding swap_bytes
swap_bytes-lt x h = omega arith

pub swap_bytes_twice : (x : ℕ) → x < 2 ^ 32 → swap_bytes (swap_bytes x) ≡ x
unfolding swap_bytes
swap_bytes_twice x h = omega arith

abbrev pub little_host : Host
little_host = record {
  htonl = swap_bytes;
  ntohl = swap_bytes;
  htonl-lt = swap_bytes-lt;
  ntohl-lt = swap_bytes-lt;
  ntohl-htonl = swap_bytes_twice;
}

abbrev pub big_host : Host
big_host = record {
  htonl = λ x. x;
  ntohl = λ x. x;
  htonl-lt = λ x h. h;
  ntohl-lt = λ x h. h;
  ntohl-htonl = λ x h. refl;
}

word_bytes-swap_bytes : (x : ℕ) → x < 2 ^ 32 → word_bytes (swap_bytes x) ≡ reverse (word_bytes x)
unfolding word_bytes swap_bytes
word_bytes-swap_bytes x h = ground arith

-- A host of either order sends a 32-bit number in its own order: the little-endian host sends
-- the lowest byte first, the big-endian host the highest.
pub write_u32_orders : (n : ℕ) → write_u32 little_host n ≡ reverse (write_u32 big_host n)
unfolding write_u32
write_u32_orders n = word_bytes-swap_bytes (n % 2 ^ 32) (omega arith)

-- So what a little-endian host sends a big-endian host reads with its bytes reversed, for every
-- number of 32 bits.
pub read_u32_across :
    (n : ℕ) (rest : Bytes)
    → n < 2 ^ 32
    → read_u32 big_host (write_u32 little_host n ++ rest) ≡ ok (swap_bytes n, rest)
unfolding read_u32 write_u32
read_u32_across n rest h =
    let small : n % 2 ^ 32 ≡ n = omega arith in
    rw small ((Reads-last (λ w. w) (Reads-word (swap_bytes n) (swap_bytes-lt n h))).run rest)

-- A big-endian host sends the lower half of a 64-bit number before the upper half.
pub write_u64_halves :
    (n : ℕ) → n < 2 ^ 64 → write_u64 big_host n ≡ word_bytes (n % 2 ^ 32) ++ word_bytes (n / 2 ^ 32)
unfolding write_u64 long_bytes to_big_endian64
write_u64_halves n h =
    let upper : (n % 2 ^ 32 * 2 ^ 32 + n / 2 ^ 32 % 2 ^ 32) / 2 ^ 32 ≡ n % 2 ^ 32 = omega arith in
    let lower : (n % 2 ^ 32 * 2 ^ 32 + n / 2 ^ 32 % 2 ^ 32) % 2 ^ 32 ≡ n / 2 ^ 32 = omega arith in
    rw (upper, lower)
