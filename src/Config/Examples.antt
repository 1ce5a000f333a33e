-- ===== src/Config/Examples.antt =====
-- The theorem on config.go, at a server that answers that nothing has changed.
use ggscale_go.Prelude.{Bool, true, [], none}
use ggscale_go.Transport.{ok, Out, Transport, no_metadata}
use ggscale_go.Config.{Values}

-- A server that knows the ETag, and sends none of its own.
abbrev unchanged : Transport Bool
unchanged = record {
  call = λ A out ctx req w. record {
    result = ok out.zero_value;
    metadata = record no_metadata { status_code = 304; not_modified = true };
    world = w;
  };
}

abbrev values_out : Out Values
values_out = record { wanted = true; zero_value = []; unmarshal = λ b. none }
