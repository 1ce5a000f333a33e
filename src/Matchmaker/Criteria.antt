-- ===== src/Matchmaker/Criteria.antt =====
-- MatchRequest of matchmaker.go, and the text that json.Marshal makes of it.
use ggscale_go.Prelude.{Bool, String, List, [], ◌∷◌, Option, none, some}
use ggscale_go.Prelude.Int.{ℤ}
use ggscale_go.Errors.{Bytes}
use ggscale_go.Transport.{Json, Fields, field, done, object, string, bool, float}
use ggscale_go.Transport.Build.{omit_empty, omit_zero, omit_raw}

-- A map is listed by its keys, in their order, as it is marshalled; a float64 is its text.
pub record MatchRequest : Type 0 where
  pub mode : String
  pub fleet : String
  pub region : String
  pub allow_cross_region : Option Bool
  pub game_mode : String
  pub min_count : ℤ
  pub max_count : ℤ
  pub count_multiple : ℤ
  pub query : String
  pub string_properties : List (String × String)
  pub numeric_properties : List (String × String)
  pub attributes : Bytes

abbrev map_fields : (String → Json) → List (String × String) → Fields
map_fields f [] = done
map_fields f ((k, v) ∷ m) = field k (f v) (map_fields f m)

-- A map that `omitempty` leaves out.
abbrev pub omit_map : (String → Json) → String → List (String × String) → Fields → Fields
omit_map f name [] rest = rest
omit_map f name (e ∷ m) rest = field name (object (map_fields f (e ∷ m))) rest

abbrev omit_nil_bool : String → Option Bool → Fields → Fields
omit_nil_bool name none rest = rest
omit_nil_bool name (some b) rest = field name (bool b) rest

-- The properties that a MatchRequest shares with the PartyProperties of parties.go.
abbrev pub properties_fields : List (String × String) → List (String × String) → Bytes → Fields
properties_fields strings numbers attributes =
    omit_map string "string_properties" strings
      (omit_map float "numeric_properties" numbers (omit_raw "attributes" attributes done))

unfoldable pub match_request_json : MatchRequest → Json
match_request_json r = object (
    omit_empty "mode" r.mode (
      omit_empty "fleet" r.fleet (
        omit_empty "region" r.region (
          omit_nil_bool "allow_cross_region" r.allow_cross_region (
            omit_empty "game_mode" r.game_mode (
              omit_zero "min_count" r.min_count (
                omit_zero "max_count" r.max_count (
                  omit_zero "count_multiple" r.count_multiple (
                    omit_empty "query" r.query (
                      properties_fields r.string_properties r.numeric_properties
                        r.attributes))))))))))
