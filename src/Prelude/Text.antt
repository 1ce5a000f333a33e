-- ===== src/Prelude/Text.antt =====
-- The functions of Go's strings, strconv and net/http packages on texts that the program calls.
pub mod Decimal
use Prim.Native.Nat.{ℕ, zero, suc, ◌+◌, ◌/◌, ◌%◌}
use Prim.Native.Char.{code}
use Prim.Native.String
use Prim.Native.String.{String}
use mathlib.Core.Path.{◌≡◌, refl}
use mathlib.Core.Bool.{Bool, true, false, ◌&&◌}
use mathlib.Core.List.{List, [], ◌∷◌}
use text.Mathlib.Text.{◌==◌ as text_eq}
use package.ggscale_go.Prelude.Tests.{leb, ◌==◌, if◌then◌else◌}
use package.ggscale_go.Prelude.Int.{ℤ, pos, negsuc}

-- s == t
abbrev pub str_eq : String → String → Bool
str_eq s t = text_eq s t

-- s == ""
abbrev pub is_empty : String → Bool
is_empty s = str_eq s ""

-- The code points of a text: its bytes, if it is ASCII.
abbrev pub codes : String → List ℕ
codes String.[] = []
codes (String.◌∷◌ c s) = code c ∷ codes s

infixr 65 ◌+s◌
abbrev pub ◌+s◌ : String → String → String
s +s t = String.◌++◌ s t

-- strings.TrimRight(s, "/")
unfoldable pub trim_slashes : String → String
trim_slashes String.[] = String.[]
trim_slashes (String.◌∷◌ c s) =
    let rest = trim_slashes s in
    if is_empty rest && code c == b'/' then String.[] else String.◌∷◌ c rest

abbrev lower_code : ℕ → ℕ
lower_code c = if leb b'A' c && leb c b'Z' then c + 32 else c

-- strings.EqualFold, on ASCII letters
unfoldable pub equal_fold : String → String → Bool
equal_fold String.[] String.[] = true
equal_fold String.[] (String.◌∷◌ d t) = false
equal_fold (String.◌∷◌ c s) String.[] = false
equal_fold (String.◌∷◌ c s) (String.◌∷◌ d t) =
    lower_code (code c) == lower_code (code d) && equal_fold s t

-- strings.HasPrefix(s, "/")
unfoldable pub has_leading_slash : String → Bool
has_leading_slash String.[] = false
has_leading_slash (String.◌∷◌ c s) = code c == b'/'

abbrev digit_text : ℕ → String
digit_text n =
    if n == 0
    then "0"
    else if n == 1
    then "1"
    else if n == 2
    then "2"
    else if n == 3
    then "3"
    else if n == 4
    then "4"
    else if n == 5
    then "5"
    else if n == 6
    then "6"
    else if n == 7
    then "7"
    else if n == 8
    then "8"
    else "9"

-- Each round writes one digit, so `n + 1` rounds are more than enough.
decimal_from : ℕ → ℕ → String → String
decimal_from zero n out = out
decimal_from (suc fuel) n out =
    let rest = decimal_from fuel (n / 10) (digit_text (n % 10) +s out) in
    if n == 0 then out else rest

unfoldable pub decimal : ℕ → String
unfolding decimal_from
decimal n = if n == 0 then "0" else decimal_from (n + 1) n ""

-- strconv.FormatInt(n, 10)
unfoldable pub format_int : ℤ → String
unfolding decimal
format_int (pos n) = decimal n
format_int (negsuc n) = "-" +s decimal (n + 1)

format_runs : format_int (negsuc 1_203) ≡ "-1204"
unfolding format_int
format_runs = refl

trim_runs : trim_slashes "http://host//" ≡ "http://host"
unfolding trim_slashes
trim_runs = refl

fold_runs : equal_fold "HTTPS" "https" ≡ true
unfolding equal_fold
fold_runs = refl
