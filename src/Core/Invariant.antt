-- ===== src/Core/Invariant.antt =====
-- Processing requests keeps the request tables valid, whatever the environment does.
use meshcore_rpc_services.Prelude.{◌≡◌, refl, sym, subst, true, Option, some, List, String, All}
use meshcore_rpc_services.Prelude.Int.{ℤ, Fixed}
use meshcore_rpc_services.Core.{Emitter, process_request}
use meshcore_rpc_services.Core.Rules.{process_request-Keeps}
use meshcore_rpc_services.Handlers.Keeping.{HandlerKeeps}
use meshcore_rpc_services.Handlers.Protocol.{Handler}
use meshcore_rpc_services.Router
use meshcore_rpc_services.Router.{Router}
use meshcore_rpc_services.Router.Registered.{resolve-All}
use meshcore_rpc_services.Runtime.{World}
use meshcore_rpc_services.Runtime.Calls.{
  write, record_received, purge_before, record_event, record_completion,
}
use meshcore_rpc_services.Runtime.Keeps.{Keeps, Keeps-perform}
use meshcore_rpc_services.Runtime.Stable.{IsStable, Keeps-mark_node_seen}
use meshcore_rpc_services.Schemas.{Request, Response}
use meshcore_rpc_services.Store.Invariant.{
  purge_before-IsValid, IsValid, IsUnique, IsValidRow, record_received-IsValid,
  record_completion-IsValid, record_event-IsValid, final_ok,
}
use meshcore_rpc_services.Store.Rows.{Db}
use meshcore_rpc_services.Timeouts.Policy.{TimeoutPolicy}
use meshcore_rpc_services.Tracker.Rules.{Keeps-run_with_timeout}

abbrev pub HasValidDb : World → Type 0
HasValidDb w = IsValid w.db

pub HasValidDb-IsStable : IsStable HasValidDb
HasValidDb-IsStable = record {
  tick = λ w t o rest e h. h;
  tables = λ w db same h. record {
    rows_valid = subst (All IsValidRow) (sym same) h.rows_valid;
    keys_unique = subst IsUnique (sym same) h.keys_unique;
  };
  radio = λ w r h. h;
  retained = λ w topic payload h. h;
}

Keeps-write_valid :
    (statement : Fixed → Db → Db)
    → ((now : Fixed) (db : Db) → IsValid db → IsValid (statement now db))
    → Keeps HasValidDb (write statement)
unfolding write
Keeps-write_valid statement keep =
    Keeps-perform _ HasValidDb-IsStable.tick (λ w h. keep w.clock w.db h)

Keeps-record_received :
    (request : Request) (ttl : ℤ) → Keeps HasValidDb (record_received request ttl)
unfolding record_received
Keeps-record_received request ttl =
    Keeps-perform _ HasValidDb-IsStable.tick
      (λ w h. record_received-IsValid request ttl w.clock w.db h)

Keeps-record_event :
    (id node_id state : String) (detail : Option String)
    → Keeps HasValidDb (record_event id node_id state detail)
unfolding record_event
Keeps-record_event id node_id state detail =
    Keeps-write_valid _ (record_event-IsValid id node_id state detail)

Keeps-record_completion :
    (id node_id state : String) (response : Option Response) (code : Option String)
    → final_ok (some state) ≡ true
    → Keeps HasValidDb (record_completion id node_id state response code)
unfolding record_completion
Keeps-record_completion id node_id state response code known =
    Keeps-write_valid _
      (λ now db. record_completion-IsValid id node_id state response code now db known)

-- A sweep keeps the tables valid.
pub Keeps-purge_before : (cutoff : Fixed) → Keeps HasValidDb (purge_before cutoff)
unfolding purge_before
Keeps-purge_before cutoff =
    Keeps-perform _ HasValidDb-IsStable.tick (λ w h. purge_before-IsValid cutoff w.db h)

module _ (emit : Emitter) (emit-keeps : (n : String) (r : Response) → Keeps HasValidDb (emit n r))
    (handlers : List Handler) (handlers-keep : All (HandlerKeeps HasValidDb) handlers)
    (router : Router) (made : Router.make handlers ≡ some router) where
  -- Processing a request keeps the request tables valid, whatever the environment does, for every
  -- emitter and all handlers that keep them valid.
  pub process_request-HasValidDb :
      (request : Request) (policy : TimeoutPolicy)
      → Keeps HasValidDb (process_request emit request router policy)
  process_request-HasValidDb request policy =
      process_request-Keeps
        (record {
          received = Keeps-record_received request;
          event = Keeps-record_event request.id request.from_;
          seen = Keeps-mark_node_seen HasValidDb-IsStable request.from_;
          emitted = emit-keeps request.from_;
          succeeded = λ r c. Keeps-record_completion _ _ _ r c refl;
          failed = λ r c. Keeps-record_completion _ _ _ r c refl;
          handled = λ h ttl found.
              Keeps-run_with_timeout _ ttl
                (resolve-All (HandlerKeeps HasValidDb) handlers router request.type h made
                  handlers-keep found request)
                (λ w n v. v) (λ w b v. v);
        })
        policy
