-- ===== src/Text/Checks/Limits.antt =====
-- checkNewLoginPasswordForLimits against the rule for logins and passwords.
use chat_bot.Base.{
  or_assoc, or_false, ℕ, suc, ◌+◌, ◌≤◌, ◌<◌, ◌≡◌, refl, ap, subst, ◌∙◌, append-nil, ◌&&◌, ◌||◌, not,
  Bool, false, [], ◌∷◌, ◌++◌, All, arith, ltb, leb, ◌==◌, if◌then◌else◌, length, lt→ltb, le→ltb,
}
use chat_bot.Wire.Reader.{Bytes}
use chat_bot.Text.Utf8.{lead_len, utf8_char_len-lead_len}
use chat_bot.Text.Checks.{
  is_digit, is_upper, answer, invalid_character, undefined, limits_answer, check_limits_loop,
  check_new_login_password_for_limits, ascii_len,
}

-- Some byte passes the test.
unfoldable pub any_byte : (ℕ → Bool) → Bytes → Bool
any_byte p [] = false
any_byte p (c ∷ cs) = p c || any_byte p cs

-- What a login or a password has to be.
unfoldable pub accepts : ℕ → ℕ → Bool → Bytes → Bool
accepts low high is_password s =
    leb low (length s)
    && leb (length s) high
    && (not is_password || (any_byte is_upper s && any_byte is_digit s))

abbrev pub IsAscii : ℕ → Type 0
IsAscii c = c < 128

-- The loop behind `count` ASCII bytes, with what it has seen of capitals and figures.
limits_answer_lem :
    (low high : ℕ) (is_password : Bool) (count : ℕ) (capital number : Bool)
    → limits_answer low high is_password count capital number
      ≡ (leb low count && leb count high && (not is_password || (capital && number)))
unfolding limits_answer
limits_answer_lem low high is_password count capital number = ground arith

check_limits_loop-ascii :
    (low high : ℕ) (is_password : Bool) (c : ℕ) (rest : Bytes) (count : ℕ) (capital number : Bool)
    → c < 128
    → check_limits_loop low high is_password (c ∷ rest) count capital number
      ≡ check_limits_loop low high is_password rest
          (count + 1)
          (capital || is_upper c)
          (number || is_digit c)
unfolding check_limits_loop
check_limits_loop-ascii low high is_password c rest count capital number h =
    rw (ascii_len c h, le→ltb (suc (length rest)) 1 (omega arith), lt→ltb c 128 h)

-- The ASCII bytes in front are only counted and looked at.
check_limits_loop-prefix :
    (low high : ℕ) (is_password : Bool) (s rest : Bytes) (count : ℕ) (capital number : Bool)
    → All IsAscii s
    → check_limits_loop low high is_password (s ++ rest) count capital number
      ≡ check_limits_loop low high is_password rest
          (count + length s)
          (capital || any_byte is_upper s)
          (number || any_byte is_digit s)
unfolding any_byte
check_limits_loop-prefix low high is_password [] rest count capital number h =
    let none_more : count + 0 ≡ count = omega arith in
    rw (none_more, or_false capital, or_false number)
check_limits_loop-prefix low high is_password (c ∷ s) rest count capital number h =
    check_limits_loop-ascii low high is_password c (s ++ rest) count capital number h.0
    ∙ check_limits_loop-prefix low high is_password s rest (count + 1) (capital || is_upper c)
        (number || is_digit c) h.1
    ∙ (let more : count + 1 + length s ≡ count + suc (length s) = omega arith in
        rw (
          more,
          or_assoc capital (is_upper c) (any_byte is_upper s),
          or_assoc number (is_digit c) (any_byte is_digit s),
        ))

check_limits_loop-eq-nil :
    (low high : ℕ) (is_password : Bool) (count : ℕ) (capital number : Bool)
    → check_limits_loop low high is_password [] count capital number
      ≡ answer (limits_answer low high is_password count capital number)
unfolding check_limits_loop
check_limits_loop-eq-nil low high is_password count capital number = refl

check_limits_loop-other :
    (low high : ℕ) (is_password : Bool) (c : ℕ) (rest : Bytes) (count : ℕ) (capital number : Bool)
    → 128 ≤ c
    → c < 256
    → check_limits_loop low high is_password (c ∷ rest) count capital number ≡ (
        if ltb (suc (length rest)) (lead_len c)
        then invalid_character
        else if lead_len c == 1
        then undefined
        else answer false)
unfolding check_limits_loop
check_limits_loop-other low high is_password c rest count capital number h below =
    rw (utf8_char_len-lead_len c below, le→ltb c 128 h)

-- On a text of ASCII bytes checkNewLoginPasswordForLimits answers true exactly if the number of
-- characters is within the two limits, both included, and a password holds a capital and a figure.
pub check_limits-ascii :
    (s : Bytes) (low high : ℕ) (is_password : Bool)
    → All IsAscii s
    → check_new_login_password_for_limits s low high is_password
      ≡ answer (accepts low high is_password s)
unfolding check_new_login_password_for_limits accepts
check_limits-ascii s low high is_password h =
    let none_before : 0 + length s ≡ length s = omega arith in
    subst
      (λ t.
        check_limits_loop low high is_password t 0 false false
        ≡ answer (accepts low high is_password s))
      (append-nil s)
      (check_limits_loop-prefix low high is_password s [] 0 false false h
        ∙ check_limits_loop-eq-nil low high is_password (0 + length s) (any_byte is_upper s)
            (any_byte is_digit s)
        ∙ rw none_before (
            ap answer (
              limits_answer_lem low high is_password (length s) (any_byte is_upper s)
                (any_byte is_digit s))))

-- At the first byte of a text that is not ASCII, whatever the limits, the check throws
-- InvalidCharacterException if fewer bytes are left than the byte announces, calls std::isdigit
-- with a negative char if the byte leads no character of UTF-8, and answers false otherwise.
pub check_limits-non_ascii :
    (s : Bytes) (c : ℕ) (rest : Bytes) (low high : ℕ) (is_password : Bool)
    → All IsAscii s
    → 128 ≤ c
    → c < 256
    → check_new_login_password_for_limits (s ++ c ∷ rest) low high is_password ≡ (
        if ltb (suc (length rest)) (lead_len c)
        then invalid_character
        else if lead_len c == 1
        then undefined
        else answer false)
unfolding check_new_login_password_for_limits
check_limits-non_ascii s c rest low high is_password ascii h below =
    check_limits_loop-prefix low high is_password s (c ∷ rest) 0 false false ascii
    ∙ check_limits_loop-other low high is_password c rest (0 + length s) (any_byte is_upper s)
        (any_byte is_digit s) h below
