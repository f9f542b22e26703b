-- ===== src/Text/Tests.antt =====
-- Tests of the text helpers, and the theorems at concrete texts.
use chat_bot.Base.{◌≡◌, ◌↔◌, ◌⊎◌, refl, All, true, some, [], ◌∷◌, arith, ◌++◌}
use chat_bot.Wire.Reader.{Bytes}
use chat_bot.Text.Utf8.{utf8_char_len, lead_len}
use chat_bot.Text.Checks.{
  figures_check, figures_and_comma_check, eng_and_figures_check, answer, undefined,
  check_new_login_password_for_limits, check_limits_loop, limits_answer, is_upper, is_digit,
}
use chat_bot.Text.Checks.Characters.{IsFigure, IsLetterOrFigure, checks_by_bytes}
use chat_bot.Text.Checks.Limits.{
  accepts, any_byte, IsAscii, check_limits-ascii, check_limits-non_ascii,
}
use chat_bot.Text.Sql.{
  quote, escape_loop, find_from, replace_quote, make_string_for_sql, double_quotes,
  make_string_for_sql-double_quotes,
}
use chat_bot.Text.Sql.Literal.{read_literal, read_literal-make_string_for_sql}

-- The text O'Ne1
abbrev name : Bytes
name = 79 ∷ 39 ∷ 78 ∷ 101 ∷ 49 ∷ []

name-IsAscii : All IsAscii name
name-IsAscii = (omega arith, (omega arith, (omega arith, (omega arith, (omega arith, tt)))))

name_escaped : make_string_for_sql name ≡ some (79 ∷ 39 ∷ 39 ∷ 78 ∷ 101 ∷ 49 ∷ [])
unfolding make_string_for_sql escape_loop find_from replace_quote
name_escaped = refl

name_accepted : check_new_login_password_for_limits name 5 20 true ≡ answer true
unfolding check_new_login_password_for_limits check_limits_loop utf8_char_len limits_answer is_upper
    is_digit
name_accepted = refl

checks_by_bytes_example :
    ((figures_check name ≡ true) ↔ All IsFigure name)
    × ((figures_and_comma_check name ≡ true) ↔ All (λ c. IsFigure c ⊎ (c ≡ 44)) name)
    × ((eng_and_figures_check name ≡ true) ↔ All IsLetterOrFigure name)
checks_by_bytes_example = checks_by_bytes name

check_limits-ascii_example : check_new_login_password_for_limits name 5 20 true ≡ answer true
unfolding accepts any_byte is_upper is_digit
check_limits-ascii_example = check_limits-ascii name 5 20 true name-IsAscii

check_limits-non_ascii_example :
    check_new_login_password_for_limits (name ++ 0x90 ∷ []) 5 20 true ≡ undefined
unfolding lead_len
check_limits-non_ascii_example =
    check_limits-non_ascii name 0x90 [] 5 20 true name-IsAscii (omega arith) (omega arith)

make_string_for_sql-double_quotes_example :
    make_string_for_sql name ≡ some (79 ∷ 39 ∷ 39 ∷ 78 ∷ 101 ∷ 49 ∷ [])
unfolding double_quotes
make_string_for_sql-double_quotes_example = make_string_for_sql-double_quotes name

-- The comma behind the literal.
read_literal-make_string_for_sql_example :
    (escaped : Bytes) × (make_string_for_sql name ≡ some escaped)
    × (read_literal (escaped ++ quote ∷ 44 ∷ []) ≡ some (name, 44 ∷ []))
read_literal-make_string_for_sql_example =
    read_literal-make_string_for_sql name [] 44 (λ e. absurd (omega arith))
