-- ===== src/Transport/Service/Sweeping.antt =====
-- meshcore_rpc_services/retention.py: the sweeper's loop among the steps of the service.
use meshcore_rpc_services.Prelude.{List, [], ◌∷◌}
use meshcore_rpc_services.Prelude.Int.{Fixed, ◌+ℤ◌}
use meshcore_rpc_services.Retention.{RetentionSweeper, run, run_once}
use meshcore_rpc_services.Router.{Router}
use meshcore_rpc_services.Runtime.{World, Result, ok, err, M, pure, modify, pass, continue, ◌>>=◌}
use meshcore_rpc_services.Timeouts.Policy.{TimeoutPolicy}
use meshcore_rpc_services.Transport.Adapter.{Codec}
use meshcore_rpc_services.Transport.Service.Safety.{Reach, next, sweep, environment}

module _ (c : Codec) (router : Router) (policy : TimeoutPolicy) (sweeper : RetentionSweeper)
    (w : World) where
  continued :
      {A B : Type 0} (r : Result A) (f : A → M B) (v : World)
      → Reach c router policy sweeper w v
      → ((a : A) (v : World)
          → Reach c router policy sweeper w v
          → Reach c router policy sweeper w (f a v).1)
      → Reach c router policy sweeper w (continue r f v).1
  continued (ok a) f v h k = k a v h
  continued (err e) f v h k = h

  -- A state stays reachable where the rest of an action keeps it so.
  bound :
      {A B : Type 0} (m : M A) (f : A → M B) {u : World}
      → Reach c router policy sweeper w (m u).1
      → ((a : A) (v : World)
          → Reach c router policy sweeper w v
          → Reach c router policy sweeper w (f a v).1)
      → Reach c router policy sweeper w ((m >>= f) u).1
  unfolding ◌>>=◌
  bound m f {u} h k = continued (m u).0 f (m u).1 h k

  -- However its sleeps and the calls of its sweeps end, the loop of the sweeper stays within the states that the service
  -- reaches by its steps.
  pub run-Reach :
      (sleeps : List Fixed) (u : World)
      → Reach c router policy sweeper w u
      → Reach c router policy sweeper w (run sweeper sleeps u).1
  unfolding run pure modify
  run-Reach [] u h = bound (run_once sweeper) _ (next h (sweep u)) (λ n v h. h)
  run-Reach (sleep ∷ sleeps) u h = bound (run_once sweeper) _ (next h (sweep u)) (λ n v h.
      bound (modify (pass sleep)) _ (next h (environment v (v.clock +ℤ sleep) v.connected v.script))
        (λ t v h. bound (run sweeper sleeps) _ (run-Reach sleeps v h) (λ rest v h. h)))
