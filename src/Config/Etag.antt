-- ===== src/Config/Etag.antt =====
-- That a client of config.go keeps its ETag over answers that say nothing has changed.
use ggscale_go.Prelude.{◌≡◌, true, false, none, some}
use ggscale_go.Prelude.Text.{is_empty}
use ggscale_go.Transport.{Result, ok, err, Transport}
use ggscale_go.Config.{RemoteConfig, Values}

-- A configuration that holds no values has an ETag to ask with again, and one that was modified has
-- values.
abbrev pub Usable : Result RemoteConfig → Type 0
Usable (err e) = Unit
Usable (ok c) =
    (c.not_modified ≡ true → (c.values ≡ none) × (is_empty c.etag ≡ false))
    × (c.not_modified ≡ false → (v : Values) × (c.values ≡ some v))
