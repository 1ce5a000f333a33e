-- ===== src/Storage/Examples.antt =====
-- The theorem on the conditional writes of storage.go, and a page of a player's objects.
use ggscale_go.Prelude.{◌≡◌, refl, true, [], ◌∷◌, ◌++◌, none, some}
use ggscale_go.Prelude.Int.{pos, negsuc}
use ggscale_go.Transport.{Out}
use ggscale_go.StdNet.Simulation.{sim_net, default_transport}
use ggscale_go.Client.Sent.{Adds}
use ggscale_go.Client.Examples.{client_env, logged_in, background}
use ggscale_go.Storage.{
  Object, ObjectPage, if_match, put_object, put_object_request, storage_path, list_objects_request,
}
use ggscale_go.Storage.Conditional.{PutOnWire, Spells, put_object-Conditional}
use ggscale_go.Server.{storage_put}

abbrev pub an_object : Object
an_object = record { key = "save"; value = []; version = pos 3; updated_at = 0 }

abbrev pub object_out : Out Object
object_out = record { wanted = true; zero_value = an_object; unmarshal = λ b. some an_object }

abbrev pub page_out : Out ObjectPage
page_out = record {
  wanted = true;
  zero_value = record { items = []; next_cursor = "" };
  unmarshal = λ b. none;
}

put_object-Conditional_example :
    Adds
      (PutOnWire sim_net default_transport client_env (Spells (pos 0)))
      logged_in
      (put_object client_env background object_out "save" none
        ([] ++ if_match (pos 0) ∷ [])
        logged_in).1
    × Adds
        (PutOnWire sim_net default_transport client_env (λ lines. lines ≡ []))
        logged_in
        (put_object client_env background object_out "save" none [] logged_in).1
    × Adds
        (PutOnWire sim_net default_transport client_env (Spells (pos 0)))
        logged_in
        (storage_put client_env background object_out
          (pos 7)
          "save"
          none
          ([] ++ if_match (pos 0) ∷ [])
          logged_in).1
    × Adds
        (PutOnWire sim_net default_transport client_env (λ lines. lines ≡ []))
        logged_in
        (storage_put client_env background object_out (pos 7) "save" none [] logged_in).1
put_object-Conditional_example =
    put_object-Conditional sim_net default_transport client_env background object_out "save" none []
      (pos 0) (pos 7) logged_in

negative_version : (put_object_request "a/b" none (if_match (negsuc 0) ∷ [])).if_match ≡ "-1"
unfolding put_object_request if_match
negative_version = refl

escaped_key : storage_path "a/b" ≡ "/v1/storage/objects/a%2Fb"
unfolding storage_path
escaped_key = refl

second_page :
    (list_objects_request (record { key_prefix = "s"; limit = pos 20; cursor = "p2" })).query
    ≡ ("cursor", "p2") ∷ ("key_prefix", "s") ∷ ("limit", "20") ∷ []
unfolding list_objects_request
second_page = refl
