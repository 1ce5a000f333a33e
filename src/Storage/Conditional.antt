-- ===== src/Storage/Conditional.antt =====
-- IfMatch of storage.go on the wire: Put, and the header that buildRequest makes of it.
use ggscale_go.Prelude.{
  ◌≡◌, refl, ap, ◌∙◌, true, false, String, List, [], ◌∷◌, ◌++◌, Option, ◌⊎◌, inl, inr,
}
use ggscale_go.Prelude.Int.{ℤ}
use ggscale_go.Prelude.Text.{codes, format_int, is_empty}
use ggscale_go.Prelude.Text.Decimal.{parse_int, parse_int-format_int, is_empty-format_int}
use ggscale_go.Transport.{Json, Request, Result, ok, err, Out, Context}
use ggscale_go.StdNet.{StdNetTransport, HttpRequest, Net}
use ggscale_go.StdNet.Wire.{values, build_request}
use ggscale_go.StdNet.Wire.Carried.{Built, build_request-Carries}
use ggscale_go.Client.{Env, Client}
use ggscale_go.Client.Calls.{id_of}
use ggscale_go.Client.Sent.{Adds, Adds-map, Adds-send, Adds-call_protected, Sent, IsRefresh}
use ggscale_go.Storage.{
  Object, PutOption, PutConfig, if_match, configured, no_condition, put_object_request, put_object,
}
use ggscale_go.Server.{storage_put, storage_put_request}

-- The last IfMatch among the options counts.
configured-if_match :
    (opts : List PutOption) (version : ℤ) (c : PutConfig)
    → (configured (opts ++ if_match version ∷ []) c).if_match ≡ format_int version
unfolding configured if_match
configured-if_match [] version c = refl
configured-if_match (o ∷ opts) version c = configured-if_match opts version (o c)

-- A header line whose text spells an int64, and no other.
abbrev pub Spells : ℤ → List String → Type 0
Spells version lines = (v : String) × (lines ≡ v ∷ []) × (parse_int (codes v) ≡ version)

module _ {W : Type 0} (net : Net W) (t : StdNetTransport) where
  -- The If-Match lines of an HTTP request, if it is built.
  abbrev pub OnWire : (List String → Type 0) → Result HttpRequest → Type 0
  OnWire P (err e) = Unit
  OnWire P (ok hr) = P (values "If-Match" hr.headers)

  conditional-OnWire :
      (version : ℤ) (r : Request) (id : String) (built : Result HttpRequest)
      → r.if_match ≡ format_int version
      → Built net r id built
      → OnWire (Spells version) built
  conditional-OnWire version r id (err e) m b = tt
  conditional-OnWire version r id (ok hr) m b =
      let full : is_empty r.if_match ≡ false = rw m (is_empty-format_int version) in
      let lines : values "If-Match" hr.headers ≡ r.if_match ∷ [] = rw full at b.2 in
      (format_int version, lines ∙ ap (λ v. v ∷ []) m, parse_int-format_int version)

  plain-OnWire :
      (r : Request) (id : String) (built : Result HttpRequest)
      → r.if_match ≡ ""
      → Built net r id built
      → OnWire (λ lines. lines ≡ []) built
  plain-OnWire r id (err e) m b = tt
  plain-OnWire r id (ok hr) m b =
      let none_set : is_empty r.if_match ≡ true = rw m in rw none_set at b.2

  module _ {V : Type 0} (env : Env V) where
    -- A refresh of the session, or a request that the transport sends with such If-Match lines, under
    -- any request id.
    abbrev pub PutOnWire : (List String → Type 0) → Request → Type 0
    PutOnWire P r = IsRefresh env r ⊎ ((id : String) → OnWire P (build_request net t r id))

    wired :
        (version : ℤ) (r : Request)
        → r.header ≡ []
        → r.if_match ≡ format_int version
        → PutOnWire (Spells version) r
    wired version r h m = inr (λ id.
        conditional-OnWire version r id (build_request net t r id) m
          (build_request-Carries net t r id h))

    wired_plain :
        (r : Request) → r.header ≡ [] → r.if_match ≡ "" → PutOnWire (λ lines. lines ≡ []) r
    wired_plain r h m =
        inr (λ id.
          plain-OnWire r id (build_request net t r id) m (build_request-Carries net t r id h))

    PutOnWire-conditional :
        (version : ℤ) (req : Request) (id : String)
        → req.header ≡ []
        → req.if_match ≡ format_int version
        → (r : Request) → Sent env req id r
        → PutOnWire (Spells version) r
    PutOnWire-conditional version req id h m r (inr refresh) = inl refresh
    PutOnWire-conditional version req id h m r (inl (token, e)) =
        wired version r (ap (λ x. x.header) e ∙ h) (ap (λ x. x.if_match) e ∙ m)

    PutOnWire-plain :
        (req : Request) (id : String)
        → req.header ≡ []
        → req.if_match ≡ ""
        → (r : Request) → Sent env req id r
        → PutOnWire (λ lines. lines ≡ []) r
    PutOnWire-plain req id h m r (inr refresh) = inl refresh
    PutOnWire-plain req id h m r (inl (token, e)) =
        wired_plain r (ap (λ x. x.header) e ∙ h) (ap (λ x. x.if_match) e ∙ m)

    module _ (ctx : Context) (out : Out Object) (key : String) (value : Option Json) where
      -- A Put whose last option is IfMatch is conditional on the wire, through every try and for every
      -- version, 0 and negative ones included: each request that it makes, refreshes of the session
      -- left aside, goes out, if it is built, with one If-Match line, which spells this version. A Put
      -- with no option goes out with no such line. The same holds of the one request of StoragePut of
      -- server.go.
      pub put_object-Conditional :
          (opts : List PutOption) (version player : ℤ) (c : Client V)
          → Adds
              (PutOnWire (Spells version))
              c
              (put_object env ctx out key value (opts ++ if_match version ∷ []) c).1
            × Adds (PutOnWire (λ lines. lines ≡ [])) c (put_object env ctx out key value [] c).1
            × Adds
                (PutOnWire (Spells version))
                c
                (storage_put env ctx out player key value (opts ++ if_match version ∷ []) c).1
            × Adds
                (PutOnWire (λ lines. lines ≡ []))
                c
                (storage_put env ctx out player key value [] c).1
      unfolding put_object put_object_request storage_put storage_put_request
      put_object-Conditional opts version player c =
          let with_version = opts ++ if_match version ∷ [] in
          let req = put_object_request key value with_version in
          let plain = put_object_request key value [] in
          let server_req = storage_put_request env player key value with_version in
          let m = configured-if_match opts version no_condition in
          (
            Adds-map (PutOnWire (Spells version))
                (PutOnWire-conditional version req (id_of env req c) refl m)
                (Adds-call_protected env out ctx req c),
            Adds-map (PutOnWire (λ lines. lines ≡ []))
                (PutOnWire-plain plain (id_of env plain c) refl refl)
                (Adds-call_protected env out ctx plain c),
            Adds-send env out ctx server_req c (wired version server_req refl m),
            Adds-send env out ctx (storage_put_request env player key value []) c
                (wired_plain (storage_put_request env player key value []) refl refl),
          )
