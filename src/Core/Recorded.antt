-- ===== src/Core/Recorded.antt =====
-- A request that was received has a row, and keeps it while it is processed.
use meshcore_rpc_services.Prelude.{
  ◌≡◌, ap, ◌∙◌, Bool, true, false, Option, some, List, [], ◌∷◌, ◌++◌, String, eq_refl, any, arith,
  Bool-cases, inl, inr,
}
use meshcore_rpc_services.Prelude.Int.{ℤ, Fixed}
use meshcore_rpc_services.Core.{Emitter, process_request}
use meshcore_rpc_services.Core.Rules.{Rule, Keeps-on_received}
use meshcore_rpc_services.Geo.{Platform}
use meshcore_rpc_services.Handlers.{default_handlers}
use meshcore_rpc_services.Handlers.Keeping.{HandlerKeeps, default_handlers-Keeps}
use meshcore_rpc_services.Router
use meshcore_rpc_services.Router.{Router}
use meshcore_rpc_services.Router.Registered.{resolve-All}
use meshcore_rpc_services.Runtime.{World, attempt, ◌>>=◌}
use meshcore_rpc_services.Runtime.Calls.{write, record_received, record_event, record_completion}
use meshcore_rpc_services.Runtime.Keeps.{Keeps, Keeps-perform}
use meshcore_rpc_services.Runtime.Stable.{IsStable, Keeps-mark_node_seen}
use meshcore_rpc_services.Runtime.Total.{Quiet, Quiet-performs}
use meshcore_rpc_services.Schemas.{Request, Response}
use meshcore_rpc_services.Store.Requests
use meshcore_rpc_services.Store.Requests.{has_key, received_row}
use meshcore_rpc_services.Store.Invariant.{any-map-update}
use meshcore_rpc_services.Store.Rows.{RequestRow, Db}
use meshcore_rpc_services.Timeouts.Policy.{TimeoutPolicy}
use meshcore_rpc_services.Tracker.Rules.{Keeps-run_with_timeout}

-- There is a row of the request.
abbrev pub IsRecorded : Request → World → Type 0
IsRecorded request w = any (has_key request.id request.from_) w.db.requests ≡ true

any-snoc :
    (p : RequestRow → Bool) (rows : List RequestRow) (row : RequestRow)
    → p row ≡ true
    → any p (rows ++ row ∷ []) ≡ true
any-snoc p [] row h = ground (arith, h)
any-snoc p (r ∷ rows) row h = ground (arith, any-snoc p rows row h)

own_key :
    (request : Request) (ttl : ℤ) (now : Fixed)
    → has_key request.id request.from_ (received_row request ttl now) ≡ true
own_key request ttl now = ground (arith, eq_refl request.id, eq_refl request.from_)

record_received-IsRecorded :
    (request : Request) (ttl : ℤ) (now : Fixed) (db : Db)
    → any
        (has_key request.id request.from_)
        (Requests.record_received request ttl now db).1.requests
      ≡ true
unfolding Requests.record_received
record_received-IsRecorded request ttl now db =
    elim (Bool-cases (any (has_key request.id request.from_) db.requests)) [
      | inl old ↦ rw old old
      | inr new ↦ rw new (any-snoc _ db.requests _ (own_key request ttl now))
    ]

module _ (request : Request) where
  pub IsRecorded-IsStable : IsStable (IsRecorded request)
  IsRecorded-IsStable = record {
    tick = λ w t o rest e h. h;
    tables = λ w db same h. ap (any (has_key request.id request.from_)) same ∙ h;
    radio = λ w r h. h;
    retained = λ w topic payload h. h;
  }

  Keeps-record_completion-IsRecorded :
      (state : String) (response : Option Response) (code : Option String)
      → Keeps (IsRecorded request) (record_completion request.id request.from_ state response code)
  unfolding record_completion write Requests.record_completion
  Keeps-record_completion-IsRecorded state response code =
      Keeps-perform _ IsRecorded-IsStable.tick (λ w h.
        any-map-update request.id request.from_ state response code w.clock request.id request.from_
          w.db.requests
        ∙ h)

  IsRecorded-Rule :
      (p : Platform) (emit : Emitter) (router : Router)
      → Router.make (default_handlers p) ≡ some router
      → ((n : String) (r : Response) → Keeps (IsRecorded request) (emit n r))
      → Rule (IsRecorded request) emit request router
  unfolding record_received record_event write Requests.record_event
  IsRecorded-Rule p emit router made emit-keeps = record {
    received = λ ttl.
        Keeps-perform _ IsRecorded-IsStable.tick
          (λ w h. record_received-IsRecorded request ttl w.clock w.db);
    event = λ s d. Keeps-perform _ IsRecorded-IsStable.tick (λ w h. h);
    seen = Keeps-mark_node_seen IsRecorded-IsStable request.from_;
    emitted = emit-keeps request.from_;
    succeeded = Keeps-record_completion-IsRecorded _;
    failed = Keeps-record_completion-IsRecorded _;
    handled = λ h ttl found.
        Keeps-run_with_timeout _ ttl
          (resolve-All (HandlerKeeps (IsRecorded request)) (default_handlers p) router request.type
            h made (default_handlers-Keeps IsRecorded-IsStable p) found request)
          (λ w n v. v) (λ w b v. v);
  }

  received-IsRecorded :
      (ttl : ℤ) (w : World) → Quiet false w → IsRecorded request (record_received request ttl w).1
  unfolding record_received
  received-IsRecorded ttl w quiet =
      Quiet-performs (IsRecorded request) _
        (λ v. record_received-IsRecorded request ttl v.clock v.db) w quiet

  -- Whenever no awaited call fails, the request has a row after it was processed.
  pub process_request-IsRecorded :
      (p : Platform) (emit : Emitter) (router : Router) (policy : TimeoutPolicy) (w : World)
      → Router.make (default_handlers p) ≡ some router
      → ((n : String) (r : Response) → Keeps (IsRecorded request) (emit n r))
      → Quiet false w
      → IsRecorded request (process_request emit request router policy w).1
  unfolding process_request attempt ◌>>=◌
  process_request-IsRecorded p emit router policy w made emit-keeps quiet =
      (Keeps-on_received (IsRecorded-Rule p emit router made emit-keeps) _ _).at _
        (received-IsRecorded _ w quiet)
