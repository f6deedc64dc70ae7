-- ===== src/Core/Balance.antt =====
-- The tracker's count of running handlers is balanced over a request.
use meshcore_rpc_services.Prelude.{ℕ, suc, ◌≡◌, Bool, true, false, some, String}
use meshcore_rpc_services.Prelude.Int.{ℤ, Fixed}
use meshcore_rpc_services.Core.{Emitter, process_request}
use meshcore_rpc_services.Core.Rules.{process_request-Keeps}
use meshcore_rpc_services.Geo.{Platform}
use meshcore_rpc_services.Handlers.{default_handlers}
use meshcore_rpc_services.Handlers.Keeping.{HandlerKeeps, default_handlers-Keeps}
use meshcore_rpc_services.Router
use meshcore_rpc_services.Router.{Router}
use meshcore_rpc_services.Router.Registered.{resolve-All}
use meshcore_rpc_services.Runtime.Calls.{write, record_received, record_event, record_completion}
use meshcore_rpc_services.Runtime.Keeps.{Keeps, Keeps-perform}
use meshcore_rpc_services.Runtime.Stable.{IsStable, Keeps-mark_node_seen}
use meshcore_rpc_services.Schemas.{Request, Response}
use meshcore_rpc_services.Store.Rows.{Db}
use meshcore_rpc_services.Timeouts.Policy.{TimeoutPolicy}
use meshcore_rpc_services.Tracker.Rules.{Tracks, run_with_timeout-Tracks}

module _ (n : ℕ) (b : Bool) where
  pub Tracks-IsStable : IsStable (Tracks n b)
  Tracks-IsStable = record {
    tick = λ w t o rest e h. h;
    tables = λ w db same h. h;
    radio = λ w r h. h;
    retained = λ w topic payload h. h;
  }

  Keeps-write-Tracks : (statement : Fixed → Db → Db) → Keeps (Tracks n b) (write statement)
  unfolding write
  Keeps-write-Tracks statement = Keeps-perform _ Tracks-IsStable.tick (λ w h. h)

  Keeps-record_received-Tracks :
      (request : Request) (ttl : ℤ) → Keeps (Tracks n b) (record_received request ttl)
  unfolding record_received
  Keeps-record_received-Tracks request ttl = Keeps-perform _ Tracks-IsStable.tick (λ w h. h)

-- Processing a request with the default handlers leaves the number of running handlers as it was,
-- and no deadline running, whatever the environment does: on every path, also when the handler
-- fails or its time runs out.
pub process_request-Tracks :
    (p : Platform) (router : Router) (emit : Emitter) (request : Request) (policy : TimeoutPolicy)
    (n : ℕ)
    → Router.make (default_handlers p) ≡ some router
    → ((node_id : String) (r : Response) → Keeps (Tracks n false) (emit node_id r))
    → Keeps (Tracks n false) (process_request emit request router policy)
unfolding record_event record_completion
process_request-Tracks p router emit request policy n made emit-keeps =
    process_request-Keeps
      (record {
        received = Keeps-record_received-Tracks n false request;
        event = λ s d. Keeps-write-Tracks n false _;
        seen = Keeps-mark_node_seen (Tracks-IsStable n false) request.from_;
        emitted = emit-keeps request.from_;
        succeeded = λ r c. Keeps-write-Tracks n false _;
        failed = λ r c. Keeps-write-Tracks n false _;
        handled = λ h ttl found. run_with_timeout-Tracks _ ttl n (
            resolve-All (HandlerKeeps (Tracks (suc n) true)) (default_handlers p) router
              request.type h made (default_handlers-Keeps (Tracks-IsStable (suc n) true) p) found
              request);
      })
      policy
