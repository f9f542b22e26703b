-- ===== src/Text/Sql/Literal.antt =====
-- What a value escaped by makeStringForSQL of core/system/system_function.cpp means inside a literal.
use mathlib.Core.Option
use chat_bot.Base.{
  ℕ, ◌<◌, ◌≡◌, ◌≢◌, refl, sym, subst, ◌∙◌, inl, inr, false, Option, none, some, [], ◌∷◌, ◌++◌,
  arith, ◌==◌, ==_iff, if◌then◌else◌, Bool-cases, length, length-append,
}
use chat_bot.Wire.Reader.{Bytes}
use chat_bot.Text.Sql.{
  quote, make_string_for_sql, double_quotes, double_quotes-nil, double_quotes-quote,
  double_quotes-other, make_string_for_sql-double_quotes,
}

-- How a server reads the rest of a literal behind its opening quote: two quotes are one, and a
-- single quote ends it. The result is the value and what follows the literal.
unfoldable pub read_literal : Bytes → Option (Bytes × Bytes)
read_literal [] = none
read_literal (c ∷ []) = if c == quote then some ([], []) else none
read_literal (c ∷ d ∷ rest) =
    let one = Option.map (λ r. (quote ∷ r.0, r.1)) (read_literal rest) in
    let other = Option.map (λ r. (c ∷ r.0, r.1)) (read_literal (d ∷ rest)) in
    if c == quote then (if d == quote then one else some ([], d ∷ rest)) else other

-- What read_literal does on a pair of quotes, on another character and at the end.
read_literal-quotes :
    (rest : Bytes)
    → read_literal (quote ∷ quote ∷ rest) ≡ Option.map (λ r. (quote ∷ r.0, r.1)) (read_literal rest)
unfolding read_literal
read_literal-quotes rest = refl

read_literal-other :
    (c d : ℕ) (rest : Bytes)
    → (c == quote) ≡ false
    → read_literal (c ∷ d ∷ rest) ≡ Option.map (λ r. (c ∷ r.0, r.1)) (read_literal (d ∷ rest))
unfolding read_literal
read_literal-other c d rest h = rw h

read_literal-end :
    (d : ℕ) (rest : Bytes)
    → (d == quote) ≡ false
    → read_literal (quote ∷ d ∷ rest) ≡ some ([], d ∷ rest)
unfolding read_literal
read_literal-end d rest h = rw h

-- A text that is not empty, by its head.
read_literal-other_head :
    (c : ℕ) (s : Bytes)
    → 0 < length s
    → (c == quote) ≡ false
    → read_literal (c ∷ s) ≡ Option.map (λ r. (c ∷ r.0, r.1)) (read_literal s)
read_literal-other_head c [] long h = absurd (omega arith)
read_literal-other_head c (d ∷ rest) long h = read_literal-other c d rest h

read_literal-escaped_quote :
    (cs input rest : Bytes) (tail : Bytes)
    → read_literal (double_quotes cs ++ tail) ≡ some (input, rest)
    → read_literal (double_quotes (quote ∷ cs) ++ tail) ≡ some (quote ∷ input, rest)
read_literal-escaped_quote cs input rest tail h =
    rw (double_quotes-quote cs) (read_literal-quotes (double_quotes cs ++ tail) ∙ rw h)

read_literal-double_quotes :
    (input after : Bytes) (c : ℕ)
    → (c == quote) ≡ false
    → read_literal (double_quotes input ++ quote ∷ c ∷ after) ≡ some (input, c ∷ after)
read_literal-double_quotes [] after c h = rw double_quotes-nil (read_literal-end c after h)
read_literal-double_quotes (x ∷ input) after c h = elim (Bool-cases (x == quote)) [
  | inl hit ↦
      subst
        (λ d.
          read_literal (double_quotes (d ∷ input) ++ quote ∷ c ∷ after)
          ≡ some (d ∷ input, c ∷ after))
        (sym ((==_iff x quote).0 hit))
        (read_literal-escaped_quote input input (c ∷ after) (quote ∷ c ∷ after)
          (read_literal-double_quotes input after c h))
  | inr miss ↦ rw (double_quotes-other x input miss) (
      read_literal-other_head x (double_quotes input ++ quote ∷ c ∷ after)
        (omega (arith, length-append (double_quotes input) (quote ∷ c ∷ after))) miss
      ∙ rw (read_literal-double_quotes input after c h))
]

-- Behind an opening quote, what makeStringForSQL returns and a closing quote read back as the
-- input, and the literal ends exactly there, whatever follows, unless that begins with a quote:
-- no text can end its own literal.
pub read_literal-make_string_for_sql :
    (input after : Bytes) (c : ℕ)
    → c ≢ quote
    → (escaped : Bytes) × (make_string_for_sql input ≡ some escaped)
      × (read_literal (escaped ++ quote ∷ c ∷ after) ≡ some (input, c ∷ after))
read_literal-make_string_for_sql input after c h = (
  double_quotes input,
  make_string_for_sql-double_quotes input,
  read_literal-double_quotes input after c (ground arith),
)
