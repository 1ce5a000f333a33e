-- ===== src/StdNet/Response/Problem.antt =====
-- What parseError of transport_stdnet.go keeps of an error response.
use ggscale_go.Prelude.{◌≡◌, true, String}
use ggscale_go.Prelude.Text.{is_empty}
use ggscale_go.StdNet.{ErrBody}

-- Where a body can state an error slug: in the detail of Problem Details or its code, or in the
-- message or error of the legacy envelope where the newer field is empty.
pub data States (slug : String) (p : ErrBody) : Type 0 where
  by_detail : p.detail ≡ slug → States slug p
  by_message : is_empty p.detail ≡ true → p.message ≡ slug → States slug p
  by_code : p.code ≡ slug → States slug p
  by_error : is_empty p.code ≡ true → p.error ≡ slug → States slug p
