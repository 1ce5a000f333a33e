-- ===== src/Url/Escape.antt =====
-- What a server reads in a path: its segments, each of which undoes url.PathEscape.
use ggscale_go.Prelude.{
  ℕ, ◌+◌, ◌-◌, ◌*◌, ◌<◌, ◌≡◌, ◌≢◌, refl, ap, ◌∙◌, Bool, ◌||◌, String, List, [], ◌∷◌, ◌++◌, map, All,
  All-append, ◌==◌, leb, if◌then◌else◌, arith,
}
use mathlib.Core.List.{append-nil}
use Prim.Native.Char.{code}
use ggscale_go.Prelude.Int.{ℤ}
use ggscale_go.Prelude.Text.{codes, format_int}
use ggscale_go.Prelude.Text.Decimal.{IsNumeric, format_int-IsNumeric}
use ggscale_go.Url.{utf8_rune, utf8, escape_byte, flat_escape, ascii, text, path_escape}

-- What the last bytes read are: nothing, a percent sign, or one with its first digit.
pub data Mode : Type 0 where
  plain percent : Mode
  high : ℕ → Mode

abbrev hex_value : ℕ → ℕ
hex_value c = if leb c b'9' then c - b'0' else c - b'A' + 10

abbrev next_mode : Mode → ℕ → Mode
next_mode plain c = if c == b'%' then percent else plain
next_mode percent c = high (hex_value c)
next_mode (high h) c = plain

abbrev read_out : Mode → ℕ → List ℕ
read_out plain c = if c == b'%' then [] else c ∷ []
read_out percent c = []
read_out (high h) c = (16 * h + hex_value c) ∷ []

unescape_from : Mode → List ℕ → List ℕ
unescape_from m [] = []
unescape_from m (c ∷ s) = read_out m c ++ unescape_from (next_mode m c) s

-- url.PathUnescape, on texts that PathEscape makes
unfoldable pub unescape : List ℕ → List ℕ
unfolding unescape_from
unescape s = unescape_from plain s

-- A path ends at a query or a fragment.
abbrev is_end : ℕ → Bool
is_end c = c == b'?' || c == b'#'

abbrev prepend : List ℕ → List (List ℕ) → List (List ℕ)
prepend xs [] = xs ∷ []
prepend xs (seg ∷ segs) = (xs ++ seg) ∷ segs

-- A path cut at its slashes.
unfoldable pub segments : List ℕ → List (List ℕ)
segments [] = [] ∷ []
segments (c ∷ s) =
    let rest = segments s in
    if c == b'/' then [] ∷ rest else if is_end c then [] ∷ [] else prepend (c ∷ []) rest

-- The segments that a server routes by.
unfoldable pub route : String → List (List ℕ)
unfolding segments unescape
route path = map unescape (segments (codes path))

abbrev IsPlain : ℕ → Type 0
IsPlain c = (c < 128) × (c ≢ b'/') × (c ≢ b'?') × (c ≢ b'#')

escape_byte-IsPlain : (b : ℕ) → b < 256 → All IsPlain (escape_byte b)
unfolding escape_byte
escape_byte-IsPlain b h = ground arith

unescape-escape_byte :
    (b : ℕ) (rest : List ℕ)
    → b < 256
    → unescape_from plain (escape_byte b ++ rest) ≡ b ∷ unescape_from plain rest
unfolding unescape_from escape_byte
unescape-escape_byte b rest h = ground arith

flat_escape-IsPlain : (bs : List ℕ) → All (λ b. b < 256) bs → All IsPlain (flat_escape bs)
unfolding flat_escape
flat_escape-IsPlain [] h = tt
flat_escape-IsPlain (b ∷ bs) (h, hs) =
    All-append IsPlain (escape_byte b) (flat_escape bs) (escape_byte-IsPlain b h)
      (flat_escape-IsPlain bs hs)

unescape-flat_escape :
    (bs : List ℕ) → All (λ b. b < 256) bs → unescape_from plain (flat_escape bs) ≡ bs
unfolding flat_escape unescape_from
unescape-flat_escape [] h = refl
unescape-flat_escape (b ∷ bs) (h, hs) =
    unescape-escape_byte b (flat_escape bs) h ∙ ap (λ l. b ∷ l) (unescape-flat_escape bs hs)

utf8_rune-bytes : (c : ℕ) → All (λ b. b < 256) (utf8_rune c)
unfolding utf8_rune
utf8_rune-bytes c = ground arith

utf8-bytes : (s : String) → All (λ b. b < 256) (utf8 s)
unfolding utf8
utf8-bytes String.[] = tt
utf8-bytes (String.◌∷◌ c s) =
    All-append (λ b. b < 256) (utf8_rune (code c)) (utf8 s) (utf8_rune-bytes (code c))
      (utf8-bytes s)

code-ascii : (n : ℕ) → n < 128 → code (ascii n) ≡ n
unfolding ascii
code-ascii n h = ground arith

codes-text : (bs : List ℕ) → All IsPlain bs → codes (text bs) ≡ bs
unfolding text
codes-text [] h = refl
codes-text (b ∷ bs) (h, hs) = rw (code-ascii b h.0) (ap (λ l. b ∷ l) (codes-text bs hs))

codes-path_escape : (s : String) → codes (path_escape s) ≡ flat_escape (utf8 s)
unfolding path_escape
codes-path_escape s =
    codes-text (flat_escape (utf8 s)) (flat_escape-IsPlain (utf8 s) (utf8-bytes s))

path_escape-IsPlain : (s : String) → All IsPlain (codes (path_escape s))
path_escape-IsPlain s = rw (codes-path_escape s) (flat_escape-IsPlain (utf8 s) (utf8-bytes s))

pub unescape-path_escape : (s : String) → unescape (codes (path_escape s)) ≡ utf8 s
unfolding unescape
unescape-path_escape s = rw (codes-path_escape s) (unescape-flat_escape (utf8 s) (utf8-bytes s))

IsPlain-numeric : (s : List ℕ) → All IsNumeric s → All IsPlain s
IsPlain-numeric [] h = tt
IsPlain-numeric (c ∷ s) (h, hs) =
    ((omega arith, omega arith, omega arith, omega arith), IsPlain-numeric s hs)

unescape_numeric : (s : List ℕ) → All IsNumeric s → unescape_from plain s ≡ s
unfolding unescape_from
unescape_numeric [] h = refl
unescape_numeric (c ∷ s) (h, hs) = let ih = unescape_numeric s hs in ground (arith, ih)

-- A text with no slash or end of a path is a part of one segment.
segments-plain :
    (xs rest seg : List ℕ) (segs : List (List ℕ))
    → All IsPlain xs
    → segments rest ≡ seg ∷ segs
    → segments (xs ++ rest) ≡ (xs ++ seg) ∷ segs
unfolding segments
segments-plain [] rest seg segs h e = e
segments-plain (x ∷ xs) rest seg segs (h, hs) e =
    let ih = segments-plain xs rest seg segs hs e in ground (arith, ih)

module _ (rest : List ℕ) (segs : List (List ℕ)) (at_slash : segments rest ≡ [] ∷ segs) where
  segments-whole : (xs : List ℕ) → All IsPlain xs → segments (xs ++ rest) ≡ xs ∷ segs
  segments-whole xs h =
      segments-plain xs rest [] segs h at_slash ∙ ap (λ l. l ∷ segs) (append-nil xs)

  pub segments-path_escape :
      (s : String) → segments (codes (path_escape s) ++ rest) ≡ codes (path_escape s) ∷ segs
  segments-path_escape s = segments-whole (codes (path_escape s)) (path_escape-IsPlain s)

  pub segments-format_int :
      (n : ℤ) → segments (codes (format_int n) ++ rest) ≡ codes (format_int n) ∷ segs
  segments-format_int n =
      segments-whole (codes (format_int n))
        (IsPlain-numeric (codes (format_int n)) (format_int-IsNumeric n))

pub unescape-format_int : (n : ℤ) → unescape (codes (format_int n)) ≡ codes (format_int n)
unfolding unescape
unescape-format_int n = unescape_numeric (codes (format_int n)) (format_int-IsNumeric n)
