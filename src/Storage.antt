-- ===== src/Storage.antt =====
-- storage.go: the objects of a player, their conditional writes and their listing.
pub mod Conditional
pub mod Examples
use ggscale_go.Prelude.{ℕ, String, List, [], ◌∷◌, Option, none, some}
use ggscale_go.Prelude.Int.{ℤ}
use ggscale_go.Prelude.Text.{◌+s◌, format_int}
use ggscale_go.Errors.{Bytes}
use ggscale_go.Transport.{Json, raw, Request, request, Out, no_out, Context}
use ggscale_go.Transport.Build.{Query, with_body, with_param, with_positive}
use ggscale_go.Url.{path_escape}
use ggscale_go.Client.{Env, M, call_protected}
use ggscale_go.Pagination.Listing.{all_pages, Listing}

pub record Object : Type 0 where
  pub key : String
  pub value : Bytes
  pub version : ℤ
  pub updated_at : ℕ

pub record StorageObjectMetadata : Type 0 where
  pub key : String
  pub version : ℤ
  pub updated_at : ℕ
  pub size_bytes : ℤ

pub record ObjectPage : Type 0 where
  pub items : List StorageObjectMetadata
  pub next_cursor : String

pub record ListOptions : Type 0 where
  pub key_prefix : String
  pub limit : ℤ
  pub cursor : String

-- putConfig
pub record PutConfig : Type 0 where
  pub if_match : String

abbrev pub PutOption : Type 0
PutOption = PutConfig → PutConfig

-- IfMatch
unfoldable pub if_match : ℤ → PutOption
unfolding format_int
if_match version c = record c { if_match = format_int version }

-- The loop over the options of Put.
unfoldable pub configured : List PutOption → PutConfig → PutConfig
configured [] c = c
configured (o ∷ os) c = configured os (o c)

abbrev pub no_condition : PutConfig
no_condition = record { if_match = "" }

-- storagePath
unfoldable pub storage_path : String → String
unfolding path_escape
storage_path key = "/v1/storage/objects/" +s path_escape key

-- The value of a Put, a nil one as the raw text null.
abbrev pub put_body : Option Json → Json
put_body none = raw (b'n' ∷ b'u' ∷ b'l' ∷ b'l' ∷ [])
put_body (some v) = v

unfoldable pub get_object_request : String → Request
unfolding storage_path
get_object_request key = request "getStorageObject" "GET" (storage_path key)

unfoldable pub put_object_request : String → Option Json → List PutOption → Request
unfolding storage_path configured
put_object_request key value opts =
    record (with_body (request "putStorageObject" "PUT" (storage_path key)) (put_body value)) {
      if_match = (configured opts no_condition).if_match;
    }

unfoldable pub delete_object_request : String → Request
unfolding storage_path
delete_object_request key = request "deleteStorageObject" "DELETE" (storage_path key)

abbrev pub list_query : ListOptions → Query
list_query o =
    with_param "cursor" o.cursor
      (with_param "key_prefix" o.key_prefix (with_positive "limit" o.limit []))

unfoldable pub list_objects_request : ListOptions → Request
unfolding format_int
list_objects_request o = record (request "listStorageObjects" "GET" "/v1/storage/objects") {
  query = list_query o;
}

module _ {W : Type 0} (env : Env W) (ctx : Context) where
  -- Get
  unfoldable pub get_object : Out Object → String → M W Object
  unfolding get_object_request
  get_object out key = call_protected env out ctx (get_object_request key)

  -- Put
  unfoldable pub put_object : Out Object → String → Option Json → List PutOption → M W Object
  unfolding put_object_request
  put_object out key value opts = call_protected env out ctx (put_object_request key value opts)

  -- Delete
  unfoldable pub delete_object : String → M W (Unit {0})
  unfolding delete_object_request
  delete_object key = call_protected env no_out ctx (delete_object_request key)

  -- List
  unfoldable pub list_objects : Out ObjectPage → ListOptions → M W ObjectPage
  unfolding list_objects_request
  list_objects out o = call_protected env out ctx (list_objects_request o)

  -- All
  unfoldable pub all_objects : Out ObjectPage → ListOptions → Listing StorageObjectMetadata W
  unfolding list_objects all_pages
  all_objects out o =
      all_pages o.cursor (λ cursor. list_objects out (record o { cursor = cursor })) (λ p. p.items)
        (λ p. p.next_cursor)
