-- ===== src/Auth/Resume.antt =====
-- That AnonymousAuth of anonymous.go resumes the session that it saved.
use ggscale_go.Prelude.{◌≡◌, refl, Bool, true, false, [], ◌∷◌, ◌++◌, Option, none, some, arith}
use ggscale_go.Prelude.Text.{is_empty}
use ggscale_go.Errors.{Bytes}
use ggscale_go.Transport.{ok, Context}
use ggscale_go.Client.{Session, Env, Client}
use ggscale_go.Auth.Anonymous.{
  SessionFile, PersistedSession, AnonymousAuth, anonymous_request, to_persisted, save_session,
  anonymous_auth, load_file, load_session_file, load_store, save_file, save_session_file,
  save_store, remove_file, clear_store,
}

-- What is relied on of package os: the directory can be made, a file that was written is read as it
-- was written, and one that was removed cannot be read.
pub record Keeps {W : Type 0} (f : SessionFile W) : Type 0 where
  pub makes : (w : W) → (f.mkdir_all w).0 ≡ true
  pub holds : (raw : Bytes) (w : W) → (f.read_file (f.write_file raw w).1).0 ≡ some raw
  pub gone : (w : W) → (f.read_file (f.remove w).1).0 ≡ none

-- What is relied on of encoding/json at a struct of texts, an int64 and a time: its text is read back.
pub record Reads {W : Type 0} (f : SessionFile W) (p : PersistedSession) : Type 0 where
  pub text : Bytes
  pub marshals : f.marshal p ≡ some text
  pub parses : f.unmarshal text ≡ some p

module _ {W : Type 0} (env : Env W) (ctx : Context) (f : SessionFile W) where
  -- What NewAnonymousAuth makes for a path.
  abbrev pub by_file : AnonymousAuth W
  by_file = record { store = none; file = some f }

  abbrev pub saved : Option Session → Client W → Client W
  saved o c = record c { world = save_session by_file o c.world }

  -- A session is resumed if it was saved with a refresh token: Authenticate returns it, and sends
  -- nothing.
  abbrev pub Resumes : Session → Client W → Type 0
  Resumes s c =
      ((anonymous_auth env by_file ctx (saved (some s) c)).0 ≡ ok s)
      × ((anonymous_auth env by_file ctx (saved (some s) c)).1.requests ≡ c.requests)

  -- Authenticate asks the server for a new player.
  abbrev pub Asks : Option Session → Client W → Type 0
  Asks o c =
      (anonymous_auth env by_file ctx (saved o c)).1.requests
      ≡ c.requests ++ anonymous_request env.api_key ∷ []

  abbrev pub AfterSave : Session → Client W → Bool → Type 0
  AfterSave s c true = Asks (some s) c
  AfterSave s c false = Resumes s c

  after_save :
      (s : Session) (c : Client W)
      → Keeps f
      → Reads f (to_persisted s)
      → (b : Bool) → is_empty s.refresh_token ≡ b
      → AfterSave s c b
  unfolding anonymous_auth save_session load_file load_session_file load_store save_file
      save_session_file save_store
  after_save s c keeps json true h =
      let made = keeps.makes c.world in
      let text = json.marshals in
      let held = keeps.holds json.text (f.mkdir_all c.world).1 in
      let parsed = json.parses in ground (arith, made, text, held, parsed, h)
  after_save s c keeps json false h =
      let made = keeps.makes c.world in
      let text = json.marshals in
      let held = keeps.holds json.text (f.mkdir_all c.world).1 in
      let parsed = json.parses in ground (arith, made, text, held, parsed, h)

  after_clear : (c : Client W) → Keeps f → Asks none c
  unfolding anonymous_auth save_session load_file load_session_file load_store remove_file
      clear_store save_file save_store
  after_clear c keeps = let gone = keeps.gone c.world in ground (arith, gone)

  -- If package os keeps files and encoding/json reads back the persisted session: after SaveSession of
  -- a session with a refresh token, Authenticate of an AnonymousAuth over a file returns that session,
  -- in all its fields, and sends no request. After SaveSession of a session without one, and after
  -- SaveSession of nil, it makes exactly the request for a new anonymous player.
  pub anonymous_auth-resumes :
      (s : Session) (c : Client W)
      → Keeps f
      → Reads f (to_persisted s)
      → AfterSave s c (is_empty s.refresh_token) × Asks none c
  anonymous_auth-resumes s c keeps json =
      (after_save s c keeps json (is_empty s.refresh_token) refl, after_clear c keeps)
