-- ===== src/Config.antt =====
-- config.go: the remote configuration, which a client reads again with the ETag that it has.
pub mod Etag
pub mod Examples
use ggscale_go.Prelude.{◌&&◌, Bool, true, false, String, List, Option, none, some, if◌then◌else◌}
use ggscale_go.Prelude.Text.{is_empty}
use ggscale_go.Errors.{Bytes}
use ggscale_go.Transport.{
  Result, ok, err, Request, request, Out, Context, Answer, ResponseMetadata, Transport,
}

-- RemoteConfig. Nil values are `none`.
pub record RemoteConfig : Type 0 where
  pub values : Option (List (String × Bytes))
  pub etag : String
  pub cache_control : String
  pub not_modified : Bool

abbrev pub Values : Type 0
Values = List (String × Bytes)

-- The request of Get
unfoldable pub config_request : String → String → Request
config_request api_key etag = record (request "getRemoteConfig" "GET" "/v1/config") {
  api_key = api_key;
  if_none_match = etag;
  allow_not_modified = true;
}

abbrev config_etag : ResponseMetadata → String → String
config_etag m etag = if m.not_modified && is_empty m.etag then etag else m.etag

abbrev config_of : String → Values → ResponseMetadata → RemoteConfig
config_of etag v m = record {
  values = if m.not_modified then none else some v;
  etag = config_etag m etag;
  cache_control = m.cache_control;
  not_modified = m.not_modified;
}

abbrev pub config_result : String → ResponseMetadata → Result Values → Result RemoteConfig
config_result etag m (err e) = err e
config_result etag m (ok v) = ok (config_of etag v m)

abbrev pub config_answer : {W : Type 0} → String → Answer Values W → Result RemoteConfig × W
config_answer etag a = (config_result etag a.metadata a.result, a.world)

-- (*ConfigService).Get
unfoldable pub get_config :
    {W : Type 0}
    → Transport W
    → Out Values
    → String
    → Context
    → String
    → W
    → Result RemoteConfig × W
unfolding config_request
get_config t out api_key ctx etag w =
    config_answer etag (t.call Values out ctx (config_request api_key etag) w)
