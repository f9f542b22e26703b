-- ===== src/Text/Checks/Characters.antt =====
-- engAndFiguresCheck, figuresCheck and figuresAndCommaCheck by the bytes that they accept.
use chat_bot.Base.{
  ℕ, ◌≤◌, ◌≡◌, ◌↔◌, ◌⊎◌, refl, ◌&&◌, not, Bool, true, false, [], ◌∷◌, All, arith, ◌==◌,
  if◌then◌else◌,
}
use chat_bot.Wire.Reader.{Bytes}
use chat_bot.Text.Utf8.{utf8_char_len}
use chat_bot.Text.Checks.{
  is_digit, is_upper, is_alnum, eng_and_figures_check, figures_check, figures_and_comma_check,
  ascii_len,
}

abbrev pub IsFigure : ℕ → Type 0
IsFigure c = (48 ≤ c) × (c ≤ 57)

abbrev pub IsLetterOrFigure : ℕ → Type 0
IsLetterOrFigure c = IsFigure c ⊎ ((65 ≤ c) × (c ≤ 90)) ⊎ ((97 ≤ c) × (c ≤ 122))

figures_check_cons :
    (c : ℕ) (b : Bool)
    → ((if not (utf8_char_len c == 1) then false else if not (is_digit c) then false else b) ≡ true)
      ↔ (IsFigure c × (b ≡ true))
unfolding is_digit
figures_check_cons c b = ground (arith, ascii_len c)

figures_and_comma_check_cons :
    (c : ℕ) (b : Bool)
    → ((if not (utf8_char_len c == 1)
          then false
          else if not (is_digit c) && not (c == 44)
          then false
          else b)
        ≡ true)
      ↔ ((IsFigure c ⊎ (c ≡ 44)) × (b ≡ true))
unfolding is_digit
figures_and_comma_check_cons c b = ground (arith, ascii_len c)

eng_and_figures_check_cons :
    (c : ℕ) (b : Bool)
    → ((if not (utf8_char_len c == 1) then false else if not (is_alnum c) then false else b) ≡ true)
      ↔ (IsLetterOrFigure c × (b ≡ true))
unfolding is_digit is_upper is_alnum
eng_and_figures_check_cons c b = ground (arith, ascii_len c)

-- From the test of one byte and the rest to the test of all bytes.
and_then {ℓ κ ι μ} :
    {A : Type ℓ} {P : Type κ} {B : Type ι} {C : Type μ} → (A ↔ (P × B)) → (B ↔ C) → A ↔ (P × C)
and_then e f = (λ a. let both = e.0 a in (both.0, f.0 both.1), λ pc. e.1 (pc.0, f.1 pc.1))

figures_check_iff : (s : Bytes) → (figures_check s ≡ true) ↔ All IsFigure s
unfolding figures_check
figures_check_iff [] = (λ h. tt, λ h. refl)
figures_check_iff (c ∷ cs) =
    and_then (figures_check_cons c (figures_check cs)) (figures_check_iff cs)

figures_and_comma_check_iff :
    (s : Bytes) → (figures_and_comma_check s ≡ true) ↔ All (λ c. IsFigure c ⊎ (c ≡ 44)) s
unfolding figures_and_comma_check
figures_and_comma_check_iff [] = (λ h. tt, λ h. refl)
figures_and_comma_check_iff (c ∷ cs) =
    and_then (figures_and_comma_check_cons c (figures_and_comma_check cs))
      (figures_and_comma_check_iff cs)

eng_and_figures_check_iff : (s : Bytes) → (eng_and_figures_check s ≡ true) ↔ All IsLetterOrFigure s
unfolding eng_and_figures_check
eng_and_figures_check_iff [] = (λ h. tt, λ h. refl)
eng_and_figures_check_iff (c ∷ cs) =
    and_then (eng_and_figures_check_cons c (eng_and_figures_check cs))
      (eng_and_figures_check_iff cs)

-- The three checks accept exactly the texts all of whose bytes are ASCII figures, figures or
-- commas, and ASCII letters or figures.
pub checks_by_bytes :
    (s : Bytes)
    → ((figures_check s ≡ true) ↔ All IsFigure s)
      × ((figures_and_comma_check s ≡ true) ↔ All (λ c. IsFigure c ⊎ (c ≡ 44)) s)
      × ((eng_and_figures_check s ≡ true) ↔ All IsLetterOrFigure s)
checks_by_bytes s =
    (figures_check_iff s, figures_and_comma_check_iff s, eng_and_figures_check_iff s)
