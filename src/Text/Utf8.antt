-- ===== src/Text/Utf8.antt =====
-- getUtf8CharLen, getCharIndex and TextToLower of core/system/system_function.cpp.
use Prim.Native.Nat.{bit_and}
use mathlib.Core.Path.{ap₂}
use chat_bot.Base.{
  ap, All, ◌⊎◌, ℕ, zero, suc, ◌+◌, ◌<◌, ◌≡◌, refl, ◌&&◌, Bool, true, false, List, [], ◌∷◌, ◌++◌,
  map, arith, ltb, leb, le→ltb, ◌==◌, if◌then◌else◌, length, take,
}
use chat_bot.Base.Int.{ℤ, pos, negsuc}
use chat_bot.Wire.Reader.{Bytes}

unfoldable pub utf8_char_len : ℕ → ℕ
utf8_char_len ch =
    if bit_and ch 0x80 == 0
    then 1
    else if bit_and ch 0xE0 == 0xC0
    then 2
    else if bit_and ch 0xF0 == 0xE0
    then 3
    else if bit_and ch 0xF8 == 0xF0
    then 4
    else 1

-- The length by the ranges of the lead bytes.
unfoldable pub lead_len : ℕ → ℕ
lead_len ch =
    if ltb ch 192
    then 1
    else if ltb ch 224
    then 2
    else if ltb ch 240
    then 3
    else if ltb ch 248
    then 4
    else 1

-- The bytes up to a bound on which the two agree.
agreement : ℕ → Bool
agreement zero = true
agreement (suc byte) =
    let lower = agreement byte in if utf8_char_len byte == lead_len byte then lower else false

agreement_lem :
    (bound byte : ℕ) → agreement bound ≡ true → byte < bound → utf8_char_len byte ≡ lead_len byte
unfolding agreement
agreement_lem zero byte all less = absurd (omega arith)
agreement_lem (suc bound) byte all less = ground (arith, agreement_lem bound byte)

agreement_256 : agreement 256 ≡ true
unfolding agreement utf8_char_len lead_len
agreement_256 = refl

-- On every byte getUtf8CharLen agrees with the ranges of UTF-8 lead bytes; a continuation byte
-- and a byte above 247 count as one character.
pub utf8_char_len-lead_len : (ch : ℕ) → ch < 256 → utf8_char_len ch ≡ lead_len ch
utf8_char_len-lead_len ch h = agreement_lem 256 ch agreement_256 h

-- std::tolower on a byte, of which only the ASCII capitals change.
unfoldable pub to_lower : ℕ → ℕ
to_lower c = if leb 65 c && leb c 90 then c + 32 else c

unfoldable pub text_to_lower : Bytes → Bytes
text_to_lower str = map to_lower str

no_capital : (c : ℕ) → (to_lower c < 65) ⊎ (90 < to_lower c)
unfolding to_lower
no_capital c = grind arith

to_lower_idem : (c : ℕ) → to_lower (to_lower c) ≡ to_lower c
unfolding to_lower
to_lower_idem c = ground arith

-- TextToLower keeps the length of a text, leaves no ASCII capital in it, and changes nothing
-- when it is applied again.
pub text_to_lower_lem :
    (str : Bytes)
    → (length (text_to_lower str) ≡ length str)
      × All (λ c. (c < 65) ⊎ (90 < c)) (text_to_lower str)
      × (text_to_lower (text_to_lower str) ≡ text_to_lower str)
unfolding text_to_lower
text_to_lower_lem [] = (refl, tt, refl)
text_to_lower_lem (c ∷ cs) =
    let (long, low, again) = text_to_lower_lem cs in
    (ap suc long, (no_capital c, low), ap₂ ◌∷◌ (to_lower_idem c) again)

-- The alphabet: a to z, then the Cyrillic letters in the order of the array.
abbrev pub alphabet : List Bytes
alphabet =
    (97 ∷ [])
    ∷ (98 ∷ [])
    ∷ (99 ∷ [])
    ∷ (100 ∷ [])
    ∷ (101 ∷ [])
    ∷ (102 ∷ [])
    ∷ (103 ∷ [])
    ∷ (104 ∷ [])
    ∷ (105 ∷ [])
    ∷ (106 ∷ [])
    ∷ (107 ∷ [])
    ∷ (108 ∷ [])
    ∷ (109 ∷ [])
    ∷ (110 ∷ [])
    ∷ (111 ∷ [])
    ∷ (112 ∷ [])
    ∷ (113 ∷ [])
    ∷ (114 ∷ [])
    ∷ (115 ∷ [])
    ∷ (116 ∷ [])
    ∷ (117 ∷ [])
    ∷ (118 ∷ [])
    ∷ (119 ∷ [])
    ∷ (120 ∷ [])
    ∷ (121 ∷ [])
    ∷ (122 ∷ [])
    ∷ (0xD0 ∷ 0xB0 ∷ [])
    ∷ (0xD0 ∷ 0xB1 ∷ [])
    ∷ (0xD0 ∷ 0xB2 ∷ [])
    ∷ (0xD0 ∷ 0xB3 ∷ [])
    ∷ (0xD0 ∷ 0xB4 ∷ [])
    ∷ (0xD0 ∷ 0xB5 ∷ [])
    ∷ (0xD1 ∷ 0x91 ∷ [])
    ∷ (0xD0 ∷ 0xB6 ∷ [])
    ∷ (0xD0 ∷ 0xB7 ∷ [])
    ∷ (0xD0 ∷ 0xB8 ∷ [])
    ∷ (0xD0 ∷ 0xB9 ∷ [])
    ∷ (0xD0 ∷ 0xBA ∷ [])
    ∷ (0xD0 ∷ 0xBB ∷ [])
    ∷ (0xD0 ∷ 0xBC ∷ [])
    ∷ (0xD0 ∷ 0xBD ∷ [])
    ∷ (0xD0 ∷ 0xBE ∷ [])
    ∷ (0xD0 ∷ 0xBF ∷ [])
    ∷ (0xD1 ∷ 0x80 ∷ [])
    ∷ (0xD1 ∷ 0x81 ∷ [])
    ∷ (0xD1 ∷ 0x82 ∷ [])
    ∷ (0xD1 ∷ 0x83 ∷ [])
    ∷ (0xD1 ∷ 0x84 ∷ [])
    ∷ (0xD1 ∷ 0x85 ∷ [])
    ∷ (0xD1 ∷ 0x86 ∷ [])
    ∷ (0xD1 ∷ 0x87 ∷ [])
    ∷ (0xD1 ∷ 0x88 ∷ [])
    ∷ (0xD1 ∷ 0x89 ∷ [])
    ∷ (0xD1 ∷ 0x8A ∷ [])
    ∷ (0xD1 ∷ 0x8B ∷ [])
    ∷ (0xD1 ∷ 0x8C ∷ [])
    ∷ (0xD1 ∷ 0x8D ∷ [])
    ∷ (0xD1 ∷ 0x8E ∷ [])
    ∷ (0xD1 ∷ 0x8F ∷ [])
    ∷ []

unfoldable pub same_text : Bytes → Bytes → Bool
same_text [] [] = true
same_text [] (y ∷ ys) = false
same_text (x ∷ xs) [] = false
same_text (x ∷ xs) (y ∷ ys) = x == y && same_text xs ys

-- The loop over the alphabet, from index i on.
unfoldable pub index_from : ℕ → Bytes → List Bytes → ℤ
index_from i ch [] = negsuc 0
index_from i ch (letter ∷ letters) =
    let later = index_from (i + 1) ch letters in if same_text ch letter then pos i else later

unfoldable pub char_index : Bytes → ℤ
char_index [] = negsuc 0
char_index (c ∷ cs) =
    if ltb (length (c ∷ cs)) (utf8_char_len c)
    then negsuc 0
    else index_from 0 (take (utf8_char_len c) (c ∷ cs)) alphabet

-- Every letter of the list `letters` is found at its own index, whatever follows it in the word.
abbrev pub Found : ℕ → List Bytes → Bytes → Type 0
Found i [] rest = Unit {0}
Found i (letter ∷ letters) rest = (char_index (letter ++ rest) ≡ pos i) × Found (i + 1) letters rest

-- getCharIndex finds each of the 59 letters of the alphabet at its own index, whatever text
-- follows the letter.
pub char_index-alphabet : (rest : Bytes) → Found 0 alphabet rest
unfolding char_index index_from same_text utf8_char_len
char_index-alphabet rest =
    rw
      (le→ltb (suc (length rest)) 1 (omega arith), le→ltb (suc (suc (length rest))) 2 (omega arith))
      (assumption refl)
