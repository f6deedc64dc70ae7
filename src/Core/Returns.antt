-- ===== src/Core/Returns.antt =====
-- The pipeline returns: what its callers rely on when no awaited call fails.
use meshcore_rpc_services.Prelude.{
  ◌+◌, ◌≡◌, refl, Bool, true, false, Option, none, some, String, Bool-cases, inl, inr,
}
use meshcore_rpc_services.Prelude.Int.{ℤ, pos, Fixed, leb_ℤ}
use meshcore_rpc_services.Core.{
  Emitter, publish_response, publish_and_finalize, emit_error_final, on_handled, dispatch,
  on_received, process_request,
}
use meshcore_rpc_services.Geo.{Platform}
use meshcore_rpc_services.Handlers.{default_handlers}
use meshcore_rpc_services.Handlers.Keeping.{HandlerKeeps, default_handlers-Keeps}
use meshcore_rpc_services.Handlers.Protocol.{Handler}
use meshcore_rpc_services.Router
use meshcore_rpc_services.Router.{Router}
use meshcore_rpc_services.Router.Registered.{resolve-All}
use meshcore_rpc_services.Runtime.{
  Result, ok, err, rpc_error, timeout_error, crash, M, modify, finally, raise, ◌>>=◌,
}
use meshcore_rpc_services.Runtime.Calls.{
  write, record_received, record_event, record_completion, mark_node_seen,
}
use meshcore_rpc_services.Runtime.Keeps.{Keeps, Keeps-perform, Keeps-bind}
use meshcore_rpc_services.Runtime.Stable.{IsStable}
use meshcore_rpc_services.Runtime.Total.{
  Total, Total-pure, Total-time, Total-attempt, Total-bind, Total-perform, Quiet, Quiet-after,
}
use meshcore_rpc_services.Schemas.{Request, Response}
use meshcore_rpc_services.Store.Rows.{Db}
use meshcore_rpc_services.Timeouts.Policy.{TimeoutPolicy}
use meshcore_rpc_services.Tracker.{run_with_timeout}

pub Quiet-IsStable : (b : Bool) → IsStable (Quiet b)
Quiet-IsStable b = record {
  tick = λ w t o rest e h. Quiet-after w t o rest e h;
  tables = λ w db same h. h;
  radio = λ w r h. h;
  retained = λ w topic payload h. h;
}

Keeps-run_with_timeout-Quiet :
    {A : Type 0} (m : M A) (ttl : ℤ)
    → Keeps (Quiet true) m
    → Keeps (Quiet false) (run_with_timeout m ttl)
unfolding run_with_timeout finally ◌>>=◌ modify raise
Keeps-run_with_timeout-Quiet m ttl keep = record {
  at = λ w h. elim (Bool-cases (leb_ℤ ttl (pos 0))) [
    | inl no_time ↦ rw no_time h
    | inr time_left ↦
        let (quiet, _) =
          keep.at (record w { in_flight = w.in_flight + 1; armed = true }) (h.0, refl) in
        rw time_left (quiet, refl)
  ];
}

Total-write : (statement : Fixed → Db → Db) → Total (write statement)
unfolding write
Total-write statement = Total-perform _ (λ w h. h)

Keeps-write-Quiet : (statement : Fixed → Db → Db) → Keeps (Quiet false) (write statement)
unfolding write
Keeps-write-Quiet statement = Keeps-perform _ (Quiet-IsStable false).tick (λ w h. h)

module _ (emit : Emitter) (request : Request)
    (emit-keeps : (n : String) (r : Response) → Keeps (Quiet false) (emit n r)) where
  Total-publish_response : (response : Response) → Total (publish_response emit request response)
  unfolding publish_response record_event
  Total-publish_response response =
      Total-bind _ _
        (Total-attempt _ (Keeps-bind _ _ (emit-keeps _ response) (λ _. Keeps-write-Quiet _)))
        (λ _. Total-pure tt)

  Total-publish_and_finalize :
      (response : Response) (state : String) (code : Option String)
      → Total (publish_and_finalize emit request response state code)
  unfolding publish_and_finalize record_completion
  Total-publish_and_finalize response state code =
      Total-bind _ _ (Total-publish_response response) (λ _. Total-write _)

  Total-emit_error_final :
      (code message : String) → Total (emit_error_final emit request code message)
  unfolding emit_error_final
  Total-emit_error_final code message = Total-publish_and_finalize _ _ _

  Total-on_handled : (ttl : ℤ) (r : Result Response) → Total (on_handled emit request ttl r)
  unfolding on_handled record_event
  Total-on_handled ttl (ok resp) = Total-publish_and_finalize _ _ _
  Total-on_handled ttl (err timeout_error) =
      Total-bind _ _ (Total-write _) (λ _. Total-emit_error_final _ _)
  Total-on_handled ttl (err (rpc_error e)) = Total-emit_error_final _ _
  Total-on_handled ttl (err (crash name)) = Total-emit_error_final _ _

  Total-dispatch :
      (ttl : ℤ) (o : Option Handler)
      → ((h : Handler) → o ≡ some h → Keeps (Quiet true) (h.handle request))
      → Total (dispatch emit request ttl o)
  unfolding dispatch record_event
  Total-dispatch ttl none keep = Total-bind _ _ (Total-write _) (λ _. Total-emit_error_final _ _)
  Total-dispatch ttl (some h) keep = Total-bind _ _ (Total-write _) (λ _.
      Total-bind _ _ (Total-attempt _ (Keeps-run_with_timeout-Quiet _ ttl (keep h refl)))
        (λ r. Total-on_handled ttl r))

  Total-on_received :
      (router : Router) (ttl : ℤ) (r : Result Bool)
      → ((h : Handler)
          → Router.resolve request.type router ≡ some h
          → Keeps (Quiet true) (h.handle request))
      → Total (on_received emit request router ttl r)
  unfolding on_received record_event mark_node_seen
  Total-on_received router ttl (err e) keep = Total-emit_error_final _ _
  Total-on_received router ttl (ok false) keep =
      Total-bind _ _ (Total-write _) (λ _. Total-emit_error_final _ _)
  Total-on_received router ttl (ok true) keep = Total-bind _ _ (Total-write _) (λ _.
      Total-bind _ _ Total-time
        (λ now. Total-bind _ _ (Total-write _) (λ _. Total-dispatch ttl _ keep)))

  -- With the default handlers the pipeline returns whenever no awaited call fails: also when the
  -- deadline of the handler passes, and when the handler raises.
  pub process_request-Total :
      (p : Platform) (router : Router) (policy : TimeoutPolicy)
      → Router.make (default_handlers p) ≡ some router
      → Total (process_request emit request router policy)
  unfolding process_request record_received
  process_request-Total p router policy made =
      Total-bind _ _ (Total-attempt _ (Keeps-perform _ (Quiet-IsStable false).tick (λ w h. h)))
        (λ r. Total-on_received router _ r (λ h found.
          resolve-All (HandlerKeeps (Quiet true)) (default_handlers p) router request.type h made
            (default_handlers-Keeps (Quiet-IsStable true) p) found request))
