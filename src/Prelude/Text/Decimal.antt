-- ===== src/Prelude/Text/Decimal.antt =====
-- The decimal texts of strconv.FormatInt: they are digits, behind a sign where the number is negative,
-- and spell the number.
use Prim.Native.Nat.{ℕ, zero, suc, ◌+◌, ◌-◌, ◌*◌, ◌/◌, ◌%◌, ◌≤◌, ◌<◌}
use Prim.Native.Char.{code}
use Prim.Native.String.{String}
use mathlib.Core.Path.{◌≡◌, refl, sym, ap, ◌∙◌}
use mathlib.Core.Logic.{◌≢◌, inl, inr}
use mathlib.Core.Bool.{false}
use mathlib.Core.List.{List, [], ◌∷◌, ◌++◌}
use native.Mathlib.Omega.{arith}
use text.Mathlib.TextLemmas.{nil-append, cons-append}
use text.Mathlib.TextEquality.{eq_iff}
use package.ggscale_go.Prelude.Tests.{◌==◌, if◌then◌else◌, Bool-cases}
use package.ggscale_go.Prelude.Lists.{All}
use package.ggscale_go.Prelude.Int.{ℤ, pos, negsuc, sub_ℕ}
use package.ggscale_go.Prelude.Text.{
  codes, ◌+s◌, is_empty, decimal_from, decimal, format_int, digit_text,
}

pub codes-append : (s t : String) → codes (s +s t) ≡ codes s ++ codes t
codes-append String.[] t = rw (nil-append t)
codes-append (String.◌∷◌ c s) t = rw (cons-append c s t) (ap (λ l. code c ∷ l) (codes-append s t))

abbrev pub IsDigit : ℕ → Type 0
IsDigit c = (b'0' ≤ c) × (c ≤ b'9')

-- What digits spell behind a number.
abbrev value : ℕ → List ℕ → ℕ
value n [] = n
value n (c ∷ s) = value (n * 10 + (c - b'0')) s

-- The number that a text spells, by its code points.
abbrev pub parse_int : List ℕ → ℤ
parse_int [] = pos 0
parse_int (c ∷ s) = if c == b'-' then sub_ℕ 0 (value 0 s) else pos (value 0 (c ∷ s))

codes-digit : (d : ℕ) → d < 10 → codes (digit_text d) ≡ (b'0' + d) ∷ []
codes-digit zero h = refl
codes-digit (suc zero) h = refl
codes-digit (suc (suc zero)) h = refl
codes-digit (suc (suc (suc zero))) h = refl
codes-digit (suc (suc (suc (suc zero)))) h = refl
codes-digit (suc (suc (suc (suc (suc zero))))) h = refl
codes-digit (suc (suc (suc (suc (suc (suc zero)))))) h = refl
codes-digit (suc (suc (suc (suc (suc (suc (suc zero))))))) h = refl
codes-digit (suc (suc (suc (suc (suc (suc (suc (suc zero)))))))) h = refl
codes-digit (suc (suc (suc (suc (suc (suc (suc (suc (suc zero))))))))) h = refl
codes-digit (suc (suc (suc (suc (suc (suc (suc (suc (suc (suc d)))))))))) h = absurd (omega arith)

codes-digits :
    (d : ℕ) (out : String) → d < 10 → codes (digit_text d +s out) ≡ (b'0' + d) ∷ codes out
codes-digits d out h = codes-append (digit_text d) out ∙ ap (λ l. l ++ codes out) (codes-digit d h)

value-decimal_from :
    (fuel n : ℕ) (out : String)
    → n < fuel
    → value 0 (codes (decimal_from fuel n out)) ≡ value n (codes out)
unfolding decimal_from
value-decimal_from zero n out h = absurd (omega arith)
value-decimal_from (suc fuel) n out h = elim (Bool-cases (n == 0)) [
  | inl e ↦ rw e (let z : n ≡ 0 = ground arith in rw z)
  | inr e ↦ rw e (
      value-decimal_from fuel (n / 10) (digit_text (n % 10) +s out) (ground arith)
      ∙ (rw (codes-digits (n % 10) out (omega arith)) (
          let z : n / 10 * 10 + (b'0' + n % 10 - b'0') ≡ n = omega arith in
          ap (λ m. value m (codes out)) z)))
]

digits-decimal_from :
    (fuel n : ℕ) (out : String)
    → All IsDigit (codes out)
    → All IsDigit (codes (decimal_from fuel n out))
unfolding decimal_from
digits-decimal_from zero n out h = h
digits-decimal_from (suc fuel) n out h = elim (Bool-cases (n == 0)) [
  | inl e ↦ rw e h
  | inr e ↦ rw e (
      digits-decimal_from fuel (n / 10) (digit_text (n % 10) +s out)
        (rw (codes-digits (n % 10) out (omega arith)) ((omega arith, omega arith), h)))
]

digits-decimal : (n : ℕ) → All IsDigit (codes (decimal n))
unfolding decimal
digits-decimal n = elim (Bool-cases (n == 0)) [
  | inl e ↦ rw e (omega arith)
  | inr e ↦ rw e (digits-decimal_from (n + 1) n "" tt)
]

value-decimal : (n : ℕ) → value 0 (codes (decimal n)) ≡ n
unfolding decimal
value-decimal n = elim (Bool-cases (n == 0)) [
  | inl e ↦ rw e (ground arith)
  | inr e ↦ rw e (value-decimal_from (n + 1) n "" (omega arith))
]

parse_int-digits : (s : List ℕ) → All IsDigit s → parse_int s ≡ pos (value 0 s)
parse_int-digits [] h = refl
parse_int-digits (c ∷ s) h = ground arith

-- A text of digits, behind a sign or not: what a path or a list at commas keeps as it is.
abbrev pub IsNumeric : ℕ → Type 0
IsNumeric c = (b'-' ≤ c) × (c ≤ b'9') × (c ≢ b'/') × (c ≢ b'.')

IsNumeric-digits : (s : List ℕ) → All IsDigit s → All IsNumeric s
IsNumeric-digits [] h = tt
IsNumeric-digits (c ∷ s) (h, hs) =
    ((omega arith, omega arith, omega arith, omega arith), IsNumeric-digits s hs)

pub format_int-IsNumeric : (n : ℤ) → All IsNumeric (codes (format_int n))
unfolding format_int
format_int-IsNumeric (pos n) = IsNumeric-digits (codes (decimal n)) (digits-decimal n)
format_int-IsNumeric (negsuc n) = rw (codes-append "-" (decimal (n + 1))) (
  (omega arith, omega arith, omega arith, omega arith),
  IsNumeric-digits (codes (decimal (n + 1))) (digits-decimal (n + 1)),
)

-- The text of an int64 spells it.
pub parse_int-format_int : (n : ℤ) → parse_int (codes (format_int n)) ≡ n
unfolding format_int
parse_int-format_int (pos n) =
    parse_int-digits (codes (decimal n)) (digits-decimal n) ∙ ap pos (value-decimal n)
parse_int-format_int (negsuc n) =
    rw (codes-append "-" (decimal (n + 1)), value-decimal (n + 1)) (ground arith)

decimal-ne-nil : (n : ℕ) → codes (decimal n) ≢ []
unfolding decimal
decimal-ne-nil n = elim (Bool-cases (n == 0)) [
  | inl e ↦ rw e (λ h. cc h)
  | inr e ↦ λ h. let z : n ≡ 0 = sym (value-decimal n) ∙ ap (value 0) h in ground (arith, e, z)
]

format_int-ne-nil : (n : ℤ) → codes (format_int n) ≢ []
unfolding format_int
format_int-ne-nil (pos n) = decimal-ne-nil n
format_int-ne-nil (negsuc n) = rw (codes-append "-" (decimal (n + 1))) (λ h. cc h)

pub is_empty-format_int : (n : ℤ) → is_empty (format_int n) ≡ false
is_empty-format_int n =
    let h = format_int-ne-nil n in
    elim (Bool-cases (is_empty (format_int n))) [
      | inl e ↦ absurd (h (ap codes ((eq_iff (format_int n) "").0 e)))
      | inr e ↦ e
    ]
