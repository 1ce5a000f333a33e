-- ===== src/Transport/Build.antt =====
-- What the services build their requests of: bodies whose `omitempty` fields leave out, and queries. An
-- url.Values is listed by its names, in their order.
use ggscale_go.Prelude.{Bool, String, List, [], ◌∷◌, Option, none, some, if◌then◌else◌}
use ggscale_go.Prelude.Int.{ℤ, pos, is_zero, ltb_ℤ}
use ggscale_go.Prelude.Text.{format_int, is_empty}
use ggscale_go.Errors.{Bytes}
use ggscale_go.Transport.{Json, Fields, field, int, bool, string, raw, null, Request}

abbrev pub with_body : Request → Json → Request
with_body req b = record req { body = some b }

-- Fields that `omitempty` leaves out.
abbrev pub omit_zero : String → ℤ → Fields → Fields
omit_zero name n rest = if is_zero n then rest else field name (int n) rest

abbrev pub omit_empty : String → String → Fields → Fields
omit_empty name s rest = if is_empty s then rest else field name (string s) rest

abbrev pub omit_false : String → Bool → Fields → Fields
omit_false name b rest = if b then field name (bool b) rest else rest

-- A json.RawMessage, which is left out when it has no bytes, whether it is nil or not.
abbrev pub omit_raw : String → Bytes → Fields → Fields
omit_raw name [] rest = rest
omit_raw name (b ∷ bs) rest = field name (raw (b ∷ bs)) rest

-- A pointer to one, `none` where it is nil.
abbrev pub omit_nil : String → Option Bytes → Fields → Fields
omit_nil name none rest = rest
omit_nil name (some b) rest = field name (raw b) rest

abbrev pub omit_nil_text : String → Option String → Fields → Fields
omit_nil_text name none rest = rest
omit_nil_text name (some s) rest = field name (string s) rest

-- A pointer that is marshalled as null where it is nil.
abbrev pub text_or_null : Option String → Json
text_or_null none = null
text_or_null (some s) = string s

abbrev pub Query : Type 0
Query = List (String × String)

-- A parameter that is set unless it is "".
abbrev pub with_param : String → String → Query → Query
with_param name value q = if is_empty value then q else (name, value) ∷ q

-- A number that is set when it is positive.
abbrev pub with_positive : String → ℤ → Query → Query
with_positive name n q = if ltb_ℤ (pos 0) n then (name, format_int n) ∷ q else q
