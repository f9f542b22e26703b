-- ===== src/Text/Checks.antt =====
-- engAndFiguresCheck, figuresCheck, figuresAndCommaCheck and checkNewLoginPasswordForLimits of
-- core/system/system_function.cpp. Bytes are numbers below 256.
pub mod Characters
pub mod Limits
use chat_bot.Base.{
  ℕ, suc, ◌+◌, ◌≤◌, ◌<◌, ◌≡◌, ◌↔◌, ◌⊎◌, inl, inr, refl, ap, subst, ◌∙◌, append-nil, ◌&&◌, ◌||◌, not,
  Bool, true, false, [], ◌∷◌, ◌++◌, All, arith, ltb, leb, ◌==◌, if◌then◌else◌, Bool-cases, length,
  lt→ltb, le→ltb,
}
use chat_bot.Wire.Reader.{Bytes}
use chat_bot.Text.Utf8.{utf8_char_len, lead_len, utf8_char_len-lead_len}

-- std::isdigit, std::isupper and std::isalnum in the C locale.
unfoldable pub is_digit : ℕ → Bool
is_digit ch = leb 48 ch && leb ch 57

unfoldable pub is_upper : ℕ → Bool
is_upper ch = leb 65 ch && leb ch 90

unfoldable pub is_alnum : ℕ → Bool
is_alnum ch = is_digit ch || is_upper ch || (leb 97 ch && leb ch 122)

unfoldable pub eng_and_figures_check : Bytes → Bool
eng_and_figures_check [] = true
eng_and_figures_check (ch ∷ rest) =
    let later = eng_and_figures_check rest in
    if not (utf8_char_len ch == 1) then false else if not (is_alnum ch) then false else later

unfoldable pub figures_check : Bytes → Bool
figures_check [] = true
figures_check (ch ∷ rest) =
    let later = figures_check rest in
    if not (utf8_char_len ch == 1) then false else if not (is_digit ch) then false else later

unfoldable pub figures_and_comma_check : Bytes → Bool
figures_and_comma_check [] = true
figures_and_comma_check (ch ∷ rest) =
    let later = figures_and_comma_check rest in
    if not (utf8_char_len ch == 1)
    then false
    else if not (is_digit ch) && not (ch == 44)
    then false
    else later

-- The results of checkNewLoginPasswordForLimits: an answer, InvalidCharacterException, or the
-- undefined call std::isdigit(ch) with a negative char.
pub data Verdict : Type 0 where
  answer : Bool → Verdict
  invalid_character undefined : Verdict

-- The tests behind the loop.
unfoldable pub limits_answer : ℕ → ℕ → Bool → ℕ → Bool → Bool → Bool
limits_answer content_length_min content_length_max is_password count capital number =
    if ltb count content_length_min || ltb content_length_max count
    then false
    else if is_password
    then (if not capital then false else if not number then false else true)
    else true

-- The loop, on the bytes from `i` on.
unfoldable pub check_limits_loop : ℕ → ℕ → Bool → Bytes → ℕ → Bool → Bool → Verdict
check_limits_loop content_length_min content_length_max is_password [] count capital number =
    answer (limits_answer content_length_min content_length_max is_password count capital number)
check_limits_loop content_length_min content_length_max is_password (ch ∷ rest) count capital
      number =
    let later =
      check_limits_loop content_length_min content_length_max is_password rest (count + 1)
        (capital || is_upper ch) (number || is_digit ch) in
    if ltb (length (ch ∷ rest)) (utf8_char_len ch)
    then invalid_character
    else if utf8_char_len ch == 1
    then (if ltb ch 128 then later else undefined)
    else answer false

unfoldable pub check_new_login_password_for_limits : Bytes → ℕ → ℕ → Bool → Verdict
check_new_login_password_for_limits input_data content_length_min content_length_max is_password =
    check_limits_loop content_length_min content_length_max is_password input_data 0 false false

pub ascii_len : (c : ℕ) → c < 128 → utf8_char_len c ≡ 1
unfolding lead_len
ascii_len c h = utf8_char_len-lead_len c (omega arith) ∙ ground arith
