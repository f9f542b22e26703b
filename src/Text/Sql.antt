-- ===== src/Text/Sql.antt =====
-- makeStringForSQL of core/system/system_function.cpp, which doubles the quotes of a value.
pub mod Literal
use mathlib.Core.Option
use chat_bot.Base.{
  ℕ, zero, suc, ◌+◌, ◌≤◌, ◌<◌, ◌≡◌, ◌≢◌, refl, sym, subst, ◌∙◌, ◌⊎◌, inl, inr, Bool, true, false,
  Option, none, some, List, [], ◌∷◌, ◌++◌, arith, ◌==◌, ==_iff, if◌then◌else◌, Bool-cases, length,
  length-append, take, drop, append_assoc,
}
use chat_bot.Wire.Reader.{Bytes}

-- The quote character '.
abbrev pub quote : ℕ
quote = 39

-- std::string::find of a character, from a position on.
unfoldable pub find_from : ℕ → Bytes → ℕ → Option ℕ
find_from c [] pos = none
find_from c (x ∷ xs) zero =
    let later = Option.map suc (find_from c xs zero) in if x == c then some 0 else later
find_from c (x ∷ xs) (suc pos) = Option.map suc (find_from c xs pos)

-- result.replace(pos, 1, "''")
unfoldable pub replace_quote : ℕ → Bytes → Bytes
replace_quote pos s = take pos s ++ (quote ∷ quote ∷ drop (pos + 1) s)

-- The loop, with fuel for its rounds; `none` means that the fuel ran out.
unfoldable pub escape_loop : ℕ → ℕ → Bytes → Option Bytes
escape_loop zero pos result = none
escape_loop (suc fuel) pos result = elim (find_from quote result pos) [
  | none ↦ some result
  | some at ↦ escape_loop fuel (at + 2) (replace_quote at result)
]

-- A value of n bytes holds at most n quotes, so n + 1 rounds are enough.
unfoldable pub make_string_for_sql : Bytes → Option Bytes
make_string_for_sql input = escape_loop (length input + 1) 0 input

-- What the loop is to compute: each quote twice.
unfoldable pub double_quotes : Bytes → Bytes
double_quotes [] = []
double_quotes (c ∷ cs) =
    if c == quote then quote ∷ quote ∷ double_quotes cs else c ∷ double_quotes cs

find_none : (c : ℕ) (done : Bytes) → find_from c (done ++ []) (length done) ≡ none
unfolding find_from
find_none c [] = refl
find_none c (x ∷ done) = rw (find_none c done)

find_hit :
    (c : ℕ) (done cs : Bytes) → find_from c (done ++ c ∷ cs) (length done) ≡ some (length done)
unfolding find_from
find_hit c [] cs = rw ((==_iff c c).1 refl)
find_hit c (x ∷ done) cs = rw (find_hit c done cs)

find_skip :
    (c : ℕ) (done : Bytes) (x : ℕ) (cs : Bytes)
    → (x == c) ≡ false
    → find_from c (done ++ x ∷ cs) (length done) ≡ find_from c (done ++ x ∷ cs) (suc (length done))
unfolding find_from
find_skip c [] x cs h = rw h
find_skip c (y ∷ done) x cs h = rw (find_skip c done x cs h)

take_done : (done todo : Bytes) → take (length done) (done ++ todo) ≡ done
take_done [] todo = refl
take_done (x ∷ done) todo = rw (take_done done todo)

drop_done :
    (done : Bytes) (x : ℕ) (todo : Bytes) → drop (suc (length done)) (done ++ x ∷ todo) ≡ todo
drop_done [] x todo = refl
drop_done (y ∷ done) x todo = drop_done done x todo

replace_done :
    (done cs : Bytes)
    → replace_quote (length done) (done ++ quote ∷ cs) ≡ (done ++ quote ∷ quote ∷ []) ++ cs
unfolding replace_quote
replace_done done cs =
    let next : length done + 1 ≡ suc (length done) = omega arith in
    rw (next, take_done done (quote ∷ cs), drop_done done quote cs)
      (sym (append_assoc done (quote ∷ quote ∷ []) cs))

-- One round, by what it finds.
escape_loop-eq-none :
    (fuel pos : ℕ) (result : Bytes)
    → find_from quote result pos ≡ none
    → escape_loop (suc fuel) pos result ≡ some result
unfolding escape_loop
escape_loop-eq-none fuel pos result h = rw (h, escape_loop)

escape_loop-eq-some :
    (fuel pos at : ℕ) (result : Bytes)
    → find_from quote result pos ≡ some at
    → escape_loop (suc fuel) pos result ≡ escape_loop fuel (at + 2) (replace_quote at result)
unfolding escape_loop
escape_loop-eq-some fuel pos at result h = rw (h, escape_loop)

escape_loop-cong :
    (fuel pos pos' : ℕ) (result : Bytes)
    → find_from quote result pos ≡ find_from quote result pos'
    → escape_loop (suc fuel) pos result ≡ escape_loop (suc fuel) pos' result
unfolding escape_loop
escape_loop-cong fuel pos pos' result h = rw (h, escape_loop)

-- One round over a character that is no quote, and over a quote.
escape_loop-skip :
    (fuel : ℕ) (done : Bytes) (c : ℕ) (cs : Bytes)
    → (c == quote) ≡ false
    → escape_loop (suc fuel) (length done) (done ++ c ∷ cs)
      ≡ escape_loop (suc fuel) (length (done ++ c ∷ [])) ((done ++ c ∷ []) ++ cs)
escape_loop-skip fuel done c cs h =
    let longer : length (done ++ c ∷ []) ≡ suc (length done) =
      omega (arith, length-append done (c ∷ [])) in
    rw (longer, append_assoc done (c ∷ []) cs)
      (escape_loop-cong fuel (length done) (suc (length done)) (done ++ c ∷ cs)
        (find_skip quote done c cs h))

escape_loop-hit :
    (fuel : ℕ) (done cs : Bytes)
    → escape_loop (suc fuel) (length done) (done ++ quote ∷ cs)
      ≡ escape_loop fuel (length (done ++ quote ∷ quote ∷ [])) ((done ++ quote ∷ quote ∷ []) ++ cs)
escape_loop-hit fuel done cs =
    let longer : length (done ++ quote ∷ quote ∷ []) ≡ length done + 2 =
      omega (arith, length-append done (quote ∷ quote ∷ [])) in
    escape_loop-eq-some fuel (length done) (length done) (done ++ quote ∷ cs)
      (find_hit quote done cs)
    ∙ rw (longer, replace_done done cs)

-- The quotes that are left.
quotes : Bytes → ℕ
quotes [] = 0
quotes (c ∷ cs) = if c == quote then suc (quotes cs) else quotes cs

quotes-le : (cs : Bytes) → quotes cs ≤ length cs
unfolding quotes
quotes-le [] = omega arith
quotes-le (c ∷ cs) = ground (arith, quotes-le cs)

quotes-quote : (cs : Bytes) → quotes (quote ∷ cs) ≡ suc (quotes cs)
unfolding quotes
quotes-quote cs = refl

quotes-other : (c : ℕ) (cs : Bytes) → (c == quote) ≡ false → quotes (c ∷ cs) ≡ quotes cs
unfolding quotes
quotes-other c cs h = rw h

pub double_quotes-nil : double_quotes [] ≡ []
unfolding double_quotes
double_quotes-nil = refl

pub double_quotes-other :
    (c : ℕ) (cs : Bytes) → (c == quote) ≡ false → double_quotes (c ∷ cs) ≡ c ∷ double_quotes cs
unfolding double_quotes
double_quotes-other c cs h = rw h

pub double_quotes-quote :
    (cs : Bytes) → double_quotes (quote ∷ cs) ≡ quote ∷ quote ∷ double_quotes cs
unfolding double_quotes
double_quotes-quote cs = refl

escape_loop_lem :
    (todo done : Bytes) (fuel : ℕ)
    → quotes todo < fuel
    → escape_loop fuel (length done) (done ++ todo) ≡ some (done ++ double_quotes todo)
unfolding double_quotes
escape_loop_lem todo done zero h = absurd (omega arith)
escape_loop_lem [] done (suc fuel) h =
    escape_loop-eq-none fuel (length done) (done ++ []) (find_none quote done)
escape_loop_lem (c ∷ cs) done (suc fuel) h = elim (Bool-cases (c == quote)) [
  | inl hit ↦
      subst
        (λ d.
          quotes (d ∷ cs) < suc fuel
          → escape_loop (suc fuel) (length done) (done ++ d ∷ cs)
            ≡ some (done ++ double_quotes (d ∷ cs)))
        (sym ((==_iff c quote).0 hit))
        (λ less.
          escape_loop-hit fuel done cs
          ∙ escape_loop_lem cs (done ++ quote ∷ quote ∷ []) fuel (omega (arith, quotes-quote cs))
          ∙ rw (append_assoc done (quote ∷ quote ∷ []) (double_quotes cs)))
        h
  | inr miss ↦
      escape_loop-skip fuel done c cs miss
      ∙ escape_loop_lem cs (done ++ c ∷ []) (suc fuel) (omega (arith, quotes-other c cs miss))
      ∙ rw (append_assoc done (c ∷ []) (double_quotes cs), double_quotes-other c cs miss)
]

-- makeStringForSQL ends on every text, and doubles each of its quotes and changes nothing else.
pub make_string_for_sql-double_quotes :
    (input : Bytes) → make_string_for_sql input ≡ some (double_quotes input)
unfolding make_string_for_sql
make_string_for_sql-double_quotes input =
    escape_loop_lem input [] (length input + 1) (omega (arith, quotes-le input))
