-- ===== src/Transport/Service/Pipeline.antt =====
-- The pipeline as the service runs it: with the default handlers, publishing to the broker.
use meshcore_rpc_services.Prelude.{◌≡◌, refl, false, some}
use meshcore_rpc_services.Core.{process_request}
use meshcore_rpc_services.Core.Answers.{Calm-IsStable, calm, answer, answered}
use meshcore_rpc_services.Core.Balance.{process_request-Tracks, Tracks-IsStable}
use meshcore_rpc_services.Core.Completion.{IsSettled, process_request-IsSettled}
use meshcore_rpc_services.Core.Recorded.{
  IsRecorded, IsRecorded-IsStable, process_request-IsRecorded,
}
use meshcore_rpc_services.Core.Returns.{Quiet-IsStable, process_request-Total}
use meshcore_rpc_services.Core.Stored.{process_request-answer}
use meshcore_rpc_services.Geo.{Platform}
use meshcore_rpc_services.Handlers.{default_handlers}
use meshcore_rpc_services.Router
use meshcore_rpc_services.Router.{Router}
use meshcore_rpc_services.Runtime.{World, Result, ok, err, M}
use meshcore_rpc_services.Runtime.Total.{Quiet, Returns, Ensures}
use meshcore_rpc_services.Schemas.{Request}
use meshcore_rpc_services.Store.Requests
use meshcore_rpc_services.Timeouts.Policy.{TimeoutPolicy, resolve}
use meshcore_rpc_services.Transport.Service.{emit}
use meshcore_rpc_services.Transport.Service.Emitting.{Keeps-emit}

returned_ok :
    {A : Type 0} (Q : World → Type 0) (m : M A) (w : World)
    → Ensures Q m
    → (r : Result A) → (m w).0 ≡ r
    → Returns r
    → Q (m w).1
returned_ok Q m w ensured (ok a) e returned = ensured.at w a e
returned_ok Q m w ensured (err x) e returned = absurd returned

module _ (p : Platform) (router : Router) (made : Router.make (default_handlers p) ≡ some router)
    (request : Request) (policy : TimeoutPolicy) (w : World) where
  -- Whenever no awaited call fails and no deadline is running, the pipeline with the default
  -- handlers returns, also when the handler raises or its time runs out, and when publishing is not
  -- possible. The request then has a row, and none of its rows is pending.
  pub process_request-completes :
      Quiet false w
      → Returns (process_request emit request router policy w).0
        × IsRecorded request (process_request emit request router policy w).1
        × IsSettled request (process_request emit request router policy w).1
  process_request-completes quiet =
      let (returned, _) =
        (process_request-Total emit request (Keeps-emit (Quiet-IsStable false).tick (λ v m h. h)) p
            router policy made).at
          w quiet in
      (
        returned,
        process_request-IsRecorded request p emit router policy w made
            (Keeps-emit (IsRecorded-IsStable request).tick (λ v m h. h)) quiet,
        returned_ok (IsSettled request) (process_request emit request router policy) w
            (process_request-IsSettled emit request router policy) _ refl returned,
      )

  -- Processing a request with the default handlers leaves the number of running handlers as it was,
  -- and no deadline running, on every path: whatever calls fail, and when the handler's time runs
  -- out.
  pub process_request-balanced :
      w.armed ≡ false
      → ((process_request emit request router policy w).1.in_flight ≡ w.in_flight)
        × ((process_request emit request router policy w).1.armed ≡ false)
  process_request-balanced idle =
      (process_request-Tracks p router emit request policy w.in_flight made
          (Keeps-emit (Tracks-IsStable w.in_flight false).tick (λ v m h. h))).at
        w (refl, idle)

  -- Where every awaited call is performed at once, the table of requests holds afterwards what it
  -- held before, the new request, and in every row of the request the answer: duplicate, unknown
  -- type, or what the handler comes to when it is started on the state after the bookkeeping.
  pub process_request-stores :
      (process_request emit request router policy (calm w)).1.db.requests
      ≡ answered request
          (answer request router (resolve policy request.type request.ttl) w)
          w.clock
          (Requests.record_received request
            (resolve policy request.type request.ttl)
            w.clock
            w.db).1.requests
  process_request-stores =
      process_request-answer emit
        (λ rows now. Keeps-emit (Calm-IsStable rows now).tick (λ v m h. h)) p router made request
        policy w
