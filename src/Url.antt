-- ===== src/Url.antt =====
-- url.PathEscape of package net/url: how the services put the caller's keys and ids into a path.
pub mod Escape
use Prim.Native.Char.{Char, char, code, nul, IsScalar}
use ggscale_go.Prelude.{
  ◌≡◌, refl, ℕ, ◌+◌, ◌-◌, ◌<◌, ◌/◌, ◌%◌, Bool, ◌&&◌, ◌||◌, String, List, [], ◌∷◌, ◌++◌, ◌==◌, ltb,
  leb, if◌then◌else◌, arith,
}
use mathlib.Core.Logic.{dite}
use native.Mathlib.Decide.{dec_lt}

-- The bytes of a rune and of a text in UTF-8.
unfoldable pub utf8_rune : ℕ → List ℕ
utf8_rune c =
    if ltb c 128
    then c ∷ []
    else if ltb c 2048
    then (192 + c / 64) ∷ (128 + c % 64) ∷ []
    else if ltb c 65536
    then (224 + c / 4096) ∷ (128 + c / 64 % 64) ∷ (128 + c % 64) ∷ []
    else ((240 + c / 262144) % 256)
      ∷ (128 + c / 4096 % 64)
      ∷ (128 + c / 64 % 64)
      ∷ (128 + c % 64)
      ∷ []

unfoldable pub utf8 : String → List ℕ
unfolding utf8_rune
utf8 String.[] = []
utf8 (String.◌∷◌ c s) = utf8_rune (code c) ++ utf8 s

abbrev pub is_alphanumeric : ℕ → Bool
is_alphanumeric b = leb b'a' b && leb b b'z' || leb b'A' b && leb b b'Z' || leb b'0' b && leb b b'9'

-- The marks that a segment of a path keeps: -_.~ and $&+:=@
abbrev is_kept_mark : ℕ → Bool
is_kept_mark b =
    b == b'-'
    || b == b'_'
    || b == b'.'
    || b == b'~'
    || b == b'$'
    || b == b'&'
    || b == b'+'
    || b == b':'
    || b == b'='
    || b == b'@'

unfoldable pub is_kept : ℕ → Bool
is_kept b = is_alphanumeric b || is_kept_mark b

-- "0123456789ABCDEF"[n]
unfoldable pub hex_digit : ℕ → ℕ
hex_digit n = if ltb n 10 then b'0' + n else b'A' + (n - 10)

unfoldable pub escape_byte : ℕ → List ℕ
unfolding is_kept hex_digit
escape_byte b = if is_kept b then b ∷ [] else b'%' ∷ hex_digit (b / 16) ∷ hex_digit (b % 16) ∷ []

flat_escape : List ℕ → List ℕ
unfolding escape_byte
flat_escape [] = []
flat_escape (b ∷ bs) = escape_byte b ++ flat_escape bs

pub IsScalar-ascii : (n : ℕ) → n < 128 → IsScalar n
IsScalar-ascii n h = ground arith

-- The character of an ASCII byte.
unfoldable pub ascii : ℕ → Char
unfolding dec_lt
ascii n = dite (dec_lt n 128) (λ h. char n (IsScalar-ascii n h)) (λ _. nul)

unfoldable pub text : List ℕ → String
unfolding ascii
text [] = ""
text (b ∷ bs) = String.◌∷◌ (ascii b) (text bs)

-- url.PathEscape
unfoldable pub path_escape : String → String
unfolding utf8 flat_escape text
path_escape s = text (flat_escape (utf8 s))

escapes : path_escape "a/b ü?" ≡ "a%2Fb%20%C3%BC%3F"
unfolding path_escape
escapes = refl
