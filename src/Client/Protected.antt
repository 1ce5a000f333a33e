-- ===== src/Client/Protected.antt =====
-- How many requests callProtected of client.go makes, and when it makes none.
use ggscale_go.Prelude.{
  ℕ, ◌+◌, ◌≤◌, ◌≡◌, String, List, [], ◌∷◌, ◌++◌, arith, length, length-append, if◌then◌else◌,
}
use ggscale_go.Prelude.Text.{str_eq}
use ggscale_go.Transport.{Context, Request, Out}
use ggscale_go.Client.{Env, Client, auth_refresh, send, call_protected, refresh_request}
use ggscale_go.Client.Calls.{id_of, Costs, Costs-call_protected, identified-requests}

-- The requests other than refreshes.
abbrev pub own : List Request → ℕ
own [] = 0
own (r ∷ l) = (if str_eq r.operation_id "authRefresh" then 0 else 1) + own l

own-append : (xs ys : List Request) → own (xs ++ ys) ≡ own xs + own ys
own-append [] ys = omega arith
own-append (x ∷ xs) ys = omega (arith, own-append xs ys)

-- At most `calls` requests of its own and `all` requests altogether lie between two states.
pub record Spends {W : Type 0} (calls all : ℕ) (c c' : Client W) : Type 0 where
  pub calls_within : own c'.requests ≤ own c.requests + calls
  pub all_within : length c'.requests ≤ length c.requests + all

pub Spends-trans :
    {W : Type 0} (a b m n : ℕ) (c d e : Client W)
    → Spends a m c d
    → Spends b n d e
    → Spends (a + b) (m + n) c e
Spends-trans a b m n c d e h k = omega arith

module _ {W : Type 0} (env : Env W) where
  Spends-send :
      {A : Type 0} (out : Out A) (ctx : Context) (req : Request) (c : Client W)
      → Spends 1 1 c (send env out ctx req c).1
  Spends-send out ctx req c =
      ground (arith, own-append c.requests (req ∷ []), length-append c.requests (req ∷ []))

  Spends-auth_refresh :
      (ctx : Context) (token : String) (c : Client W)
      → Spends 0 1 c (auth_refresh env ctx token c).1
  unfolding auth_refresh
  Spends-auth_refresh ctx token c =
      let r = refresh_request env token in
      ground (arith, own-append c.requests (r ∷ []), length-append c.requests (r ∷ []))

  pub Spends-nothing : (a m : ℕ) (c : Client W) → Spends a m c c
  Spends-nothing a m c = omega arith

  Spends-unmoved : (a m : ℕ) (c d : Client W) → d.requests ≡ c.requests → Spends a m c d
  Spends-unmoved a m c d h = ground arith

  Spends-at_most : (a b m n : ℕ) (c d : Client W) → a ≤ b → m ≤ n → Spends a m c d → Spends b n c d
  Spends-at_most a b m n c d h k s = omega arith

  Spends-Costs : (req : Request) (id : String) → Costs env req id Spends
  Spends-Costs req id = record {
    nothing = λ c d h k. Spends-unmoved 0 0 c d h;
    chained = λ a b m n c d e. Spends-trans a b m n c d e;
    at_most = Spends-at_most;
    refreshes = Spends-auth_refresh;
    calls = λ A out ctx r c h. Spends-send out ctx r c;
  }

  -- However its refreshes and calls go, a protected call makes its own request at most twice, and with
  -- its refreshes at most four requests.
  pub Spends-call_protected :
      {A : Type 0} (out : Out A) (ctx : Context) (req : Request) (c : Client W)
      → Spends 2 4 c (call_protected env out ctx req c).1
  Spends-call_protected out ctx req c =
      Spends-trans 0 2 0 4 c _ _ (Spends-unmoved 0 0 c _ (identified-requests env req c))
        (Costs-call_protected env out ctx req c Spends (Spends-Costs req (id_of env req c)))
