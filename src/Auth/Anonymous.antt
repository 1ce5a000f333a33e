-- ===== src/Auth/Anonymous.antt =====
-- anonymous.go: AnonymousAuth over a session store, a file, or both.
use ggscale_go.Prelude.{ℕ, Bool, false, String, List, [], ◌∷◌, Option, none, some, if◌then◌else◌}
use ggscale_go.Prelude.Int.{ℤ}
use ggscale_go.Prelude.Text.{is_empty}
use ggscale_go.Errors.{Bytes}
use ggscale_go.Transport.{Result, ok, err, Request, request, Context}
use ggscale_go.Client.{Session, Env, Client, M, send}

-- interface SessionStore, as functions of the world that say whether they failed
pub record SessionStore (W : Type 0) : Type 0 where
  -- a nil session is `none`
  pub load : W → Result (Option Session) × W
  pub save : Session → W → Bool × W
  pub clear : W → Bool × W

-- persistedSession
pub record PersistedSession : Type 0 where
  pub access_token : String
  pub refresh_token : String
  pub player_id : ℤ
  pub expires_at : ℕ

-- The file at a path: os.MkdirAll of its directory, os.ReadFile, os.WriteFile and os.Remove, which say
-- whether they worked, and encoding/json at the struct persistedSession.
pub record SessionFile (W : Type 0) : Type 0 where
  pub mkdir_all : W → Bool × W
  pub read_file : W → Option Bytes × W
  pub write_file : Bytes → W → Bool × W
  pub remove : W → Bool × W
  pub marshal : PersistedSession → Option Bytes
  pub unmarshal : Bytes → Option PersistedSession

abbrev pub to_persisted : Session → PersistedSession
to_persisted s = record {
  access_token = s.access_token;
  refresh_token = s.refresh_token;
  player_id = s.player_id;
  expires_at = s.expires_at;
}

abbrev of_persisted : Option PersistedSession → Option Session
of_persisted none = none
of_persisted (some p) =
    if is_empty p.refresh_token
    then none
    else some (record {
      access_token = p.access_token;
      refresh_token = p.refresh_token;
      player_id = p.player_id;
      expires_at = p.expires_at;
    })

-- What an AnonymousAuth is made with: NewAnonymousAuth gives it a path, which may be "",
-- NewAnonymousAuthWithStore a store.
pub record AnonymousAuth (W : Type 0) : Type 0 where
  pub store : Option (SessionStore W)
  pub file : Option (SessionFile W)

abbrev config_or : String → Option String → String
config_or temp none = temp
config_or temp (some dir) = if is_empty dir then temp else dir

-- DefaultSessionPath, with filepath.Join, the results of os.UserConfigDir, `none` for an error, and of
-- os.TempDir
unfoldable pub default_session_path :
    (List String → String) → Option String → String → String → String
default_session_path join config temp game =
    join (config_or temp config ∷ "ggscale" ∷ game ∷ "session.json" ∷ [])

abbrev pub anonymous_request : String → Request
anonymous_request key = record (request "authAnonymous" "POST" "/v1/auth/anonymous") {
  api_key = key;
}

-- A session that can be resumed.
abbrev pub usable : Option Session → Option Session
usable none = none
usable (some s) = if is_empty s.refresh_token then none else some s

abbrev pub usable_result : Result (Option Session) → Option Session
usable_result (ok o) = usable o
usable_result (err e) = none

module _ {W : Type 0} where
  abbrev parsed : SessionFile W → Option Bytes → Option Session
  parsed f none = none
  parsed f (some raw) = of_persisted (f.unmarshal raw)

  -- loadSessionFile
  unfoldable pub load_session_file : SessionFile W → W → Option Session × W
  load_session_file f w = let (o, w') = f.read_file w in (parsed f o, w')

  abbrev written : SessionFile W → Option Bytes → W → Bool × W
  written f none w = (false, w)
  written f (some raw) w = f.write_file raw w

  -- saveSessionFile, and whether it worked
  unfoldable pub save_session_file : SessionFile W → Session → W → Bool × W
  save_session_file f s w =
      let (made, w') = f.mkdir_all w in
      if made then written f (f.marshal (to_persisted s)) w' else (false, w')

  unfoldable pub load_file : Option (SessionFile W) → W → Option Session × W
  unfolding load_session_file
  load_file none w = (none, w)
  load_file (some f) w = load_session_file f w

  unfoldable pub load_store : Option (SessionStore W) → W → Option Session × W
  load_store none w = (none, w)
  load_store (some s) w = let (r, w') = s.load w in (usable_result r, w')

  -- The saves of SaveSession and Authenticate, which drop the errors.
  unfoldable pub save_file : Option (SessionFile W) → Session → W → W
  unfolding save_session_file
  save_file none s w = w
  save_file (some f) s w = (save_session_file f s w).1

  unfoldable pub save_store : Option (SessionStore W) → Session → W → W
  save_store none s w = w
  save_store (some t) s w = (t.save s w).1

  unfoldable pub clear_store : Option (SessionStore W) → W → W
  clear_store none w = w
  clear_store (some t) w = (t.clear w).1

  unfoldable pub remove_file : Option (SessionFile W) → W → W
  remove_file none w = w
  remove_file (some f) w = (f.remove w).1

  -- SaveSession
  unfoldable pub save_session : AnonymousAuth W → Option Session → W → W
  unfolding save_file save_store clear_store remove_file
  save_session a none w = remove_file a.file (clear_store a.store w)
  save_session a (some s) w = save_file a.file s (save_store a.store s w)

module _ {W : Type 0} (env : Env W) (a : AnonymousAuth W) (ctx : Context) where
  abbrev pub created : Result Session × Client W → Result Session × Client W
  created (err e, c) = (err e, c)
  created (ok s, c) = (ok s, record c { world = save_store a.store s (save_file a.file s c.world) })

  abbrev pub or_file : Client W → Option Session × W → Result Session × Client W
  or_file c (some s, w) = (ok s, record c { world = w })
  or_file c (none, w) =
      created
        (send env env.session_out ctx (anonymous_request env.api_key) (record c { world = w }))

  abbrev pub or_store : Client W → Option Session × W → Result Session × Client W
  or_store c (some s, w) = (ok s, record c { world = w })
  or_store c (none, w) = or_file c (load_file a.file w)

  -- (*AnonymousAuth).Authenticate
  unfoldable pub anonymous_auth : M W Session
  unfolding load_store load_file save_store save_file
  anonymous_auth c = or_store c (load_store a.store c.world)
