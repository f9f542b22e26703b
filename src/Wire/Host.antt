-- ===== src/Wire/Host.antt =====
-- The host's byte order, which htonl and ntohl of <arpa/inet.h> hide, and the 64-bit conversions
-- toBigEndian64 and fromBigEndian64 of core/system/serialize.cpp over it.
use chat_bot.Base.{ℕ, ◌+◌, ◌*◌, ◌/◌, ◌%◌, ◌^◌, ◌<◌, ◌≡◌, arith}

-- htonl and ntohl map 32-bit words to 32-bit words, and ntohl undoes htonl.
pub record Host : Type 0 where
  pub htonl : ℕ → ℕ
  pub ntohl : ℕ → ℕ
  pub htonl-lt : (x : ℕ) → x < 2 ^ 32 → htonl x < 2 ^ 32
  pub ntohl-lt : (x : ℕ) → x < 2 ^ 32 → ntohl x < 2 ^ 32
  pub ntohl-htonl : (x : ℕ) → x < 2 ^ 32 → ntohl (htonl x) ≡ x

lower_half : (high low : ℕ) → low < 2 ^ 32 → (high * 2 ^ 32 + low) % 2 ^ 32 ≡ low
lower_half high low h = omega arith

upper_half :
    (high low : ℕ) → high < 2 ^ 32 → low < 2 ^ 32 → (high * 2 ^ 32 + low) / 2 ^ 32 % 2 ^ 32 ≡ high
upper_half high low h k = omega arith

module _ (host : Host) where
  open host use {htonl, ntohl, htonl-lt, ntohl-lt, ntohl-htonl}

  -- The two halves are disjoint, so `|` of the shifted half is a sum.
  unfoldable pub to_big_endian64 : ℕ → ℕ
  to_big_endian64 value =
      let high = htonl (value / 2 ^ 32 % 2 ^ 32) in
      let low = htonl (value % 2 ^ 32) in low * 2 ^ 32 + high

  unfoldable pub from_big_endian64 : ℕ → ℕ
  from_big_endian64 value =
      let high = ntohl (value % 2 ^ 32) in
      let low = ntohl (value / 2 ^ 32 % 2 ^ 32) in high * 2 ^ 32 + low

  pub to_big_endian64-lt : (value : ℕ) → to_big_endian64 value < 2 ^ 64
  unfolding to_big_endian64
  to_big_endian64-lt value = omega (
    arith,
    htonl-lt (value / 2 ^ 32 % 2 ^ 32) (omega arith),
    htonl-lt (value % 2 ^ 32) (omega arith),
  )

  pub from-to_big_endian64 :
      (value : ℕ) → value < 2 ^ 64 → from_big_endian64 (to_big_endian64 value) ≡ value
  unfolding to_big_endian64 from_big_endian64
  from-to_big_endian64 value h =
      rw
        (
          lower_half (htonl (value % 2 ^ 32)) (htonl (value / 2 ^ 32 % 2 ^ 32))
              (htonl-lt _ (omega arith)),
          upper_half (htonl (value % 2 ^ 32)) (htonl (value / 2 ^ 32 % 2 ^ 32))
              (htonl-lt _ (omega arith)) (htonl-lt _ (omega arith)),
          ntohl-htonl (value / 2 ^ 32 % 2 ^ 32) (omega arith),
          ntohl-htonl (value % 2 ^ 32) (omega arith),
        )
        (omega arith)
