-- ===== src/Errors/Examples.antt =====
-- The theorems on the errors of transport.go, at concrete errors.
use ggscale_go.Prelude.{◌≡◌, refl, true, []}
use ggscale_go.Prelude.Int.{pos}
use ggscale_go.Errors.{Error, Sentinel, index, error_is, has_slug}
use ggscale_go.Errors.Families.{family, error_is_classes}

-- The 409 for a player who queues twice.
abbrev pub ticket_conflict : Error
ticket_conflict = record {
  status = 409;
  type = "";
  title = "Conflict";
  detail = "ticket_already_active";
  instance_uri = "";
  code = "";
  message = "ticket_already_active";
  request_id = "r1";
  retry_after = pos 0;
  conflict_version = pos 0;
  diagnostic_body = "";
  details = [];
}

is_ticket_active : error_is ticket_conflict Sentinel.ticket_active ≡ true
unfolding error_is has_slug
is_ticket_active = refl

error_is_classes_example :
    (error_is ticket_conflict Sentinel.conflict ≡ true)
    × (index (family Sentinel.ticket_active) ≡ index (family Sentinel.ticket_active))
error_is_classes_example =
    error_is_classes ticket_conflict Sentinel.ticket_active Sentinel.ticket_active is_ticket_active
      is_ticket_active
