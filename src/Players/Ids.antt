-- ===== src/Players/Ids.antt =====
-- The ids that Resolve of players.go puts into its query, as a server reads them.
use ggscale_go.Prelude.{
  ℕ, ◌≡◌, refl, ap, sym, ◌∙◌, List, [], ◌∷◌, ◌++◌, map, All, ◌==◌, if◌then◌else◌, arith,
}
use mathlib.Core.List.{append-nil}
use ggscale_go.Prelude.Int.{ℤ}
use ggscale_go.Prelude.Text.{codes, ◌+s◌, format_int}
use ggscale_go.Prelude.Text.Decimal.{
  IsNumeric, parse_int, format_int-IsNumeric, parse_int-format_int, codes-append,
}
use ggscale_go.Transport.Build.{Query}
use ggscale_go.Players.{join_ids, resolve_players_request}

abbrev in_front : ℕ → List (List ℕ) → List (List ℕ)
in_front c [] = (c ∷ []) ∷ []
in_front c (part ∷ parts) = (c ∷ part) ∷ parts

-- A text cut at its commas.
split_commas : List ℕ → List (List ℕ)
split_commas [] = [] ∷ []
split_commas (c ∷ s) = let rest = split_commas s in if c == b',' then [] ∷ rest else in_front c rest

unfoldable pub ids_in : List ℕ → List ℤ
unfolding split_commas
ids_in s = map parse_int (split_commas s)

split_commas-numeric :
    (xs rest part : List ℕ) (parts : List (List ℕ))
    → All IsNumeric xs
    → split_commas rest ≡ part ∷ parts
    → split_commas (xs ++ rest) ≡ (xs ++ part) ∷ parts
unfolding split_commas
split_commas-numeric [] rest part parts h e = e
split_commas-numeric (x ∷ xs) rest part parts (h, hs) e =
    let ih = split_commas-numeric xs rest part parts hs e in ground (arith, ih)

split-first :
    (n : ℤ) (rest : List ℕ) (parts : List (List ℕ))
    → split_commas rest ≡ [] ∷ parts
    → split_commas (codes (format_int n) ++ rest) ≡ codes (format_int n) ∷ parts
split-first n rest parts e =
    split_commas-numeric (codes (format_int n)) rest [] parts (format_int-IsNumeric n) e
    ∙ ap (λ l. l ∷ parts) (append-nil (codes (format_int n)))

split_commas-join_ids :
    (n : ℤ) (ns : List ℤ)
    → split_commas (codes (join_ids (n ∷ ns))) ≡ map (λ m. codes (format_int m)) (n ∷ ns)
unfolding join_ids split_commas
split_commas-join_ids n [] =
    ap split_commas (sym (append-nil (codes (format_int n)))) ∙ split-first n [] [] refl
split_commas-join_ids n (m ∷ ns) =
    rw
      (codes-append (format_int n) ("," +s join_ids (m ∷ ns)), codes-append "," (join_ids (m ∷ ns)))
      (split-first n (codes "," ++ codes (join_ids (m ∷ ns)))
        (map (λ k. codes (format_int k)) (m ∷ ns)) (ap (λ l. [] ∷ l) (split_commas-join_ids m ns)))

parse_all : (ns : List ℤ) → map parse_int (map (λ m. codes (format_int m)) ns) ≡ ns
parse_all [] = refl
parse_all (n ∷ ns) = rw (parse_int-format_int n) (ap (λ l. n ∷ l) (parse_all ns))

-- The only values of a parameter in a query.
abbrev pub ids_of : Query → List ℤ
ids_of [] = []
ids_of ((name, v) ∷ q) = ids_in (codes v)

-- A server that cuts the ids parameter of Resolve at its commas and reads each part as an int64 in
-- decimal finds the ids that the caller asked for, in their order and as often as there, if there is
-- one at all.
pub resolve_players_request-ids :
    (n : ℤ) (ns : List ℤ) → ids_of (resolve_players_request (n ∷ ns)).query ≡ n ∷ ns
unfolding ids_in resolve_players_request
resolve_players_request-ids n ns =
    ap (map parse_int) (split_commas-join_ids n ns) ∙ parse_all (n ∷ ns)
