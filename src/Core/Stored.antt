-- ===== src/Core/Stored.antt =====
-- The pipeline stores the answer that is described in Core/Answers.antt.
use meshcore_rpc_services.Prelude.{
  ◌≡◌, refl, true, false, Option, none, some, List, [], String, any, Bool-cases, inl, inr,
}
use meshcore_rpc_services.Prelude.Int.{ℤ, Fixed}
use meshcore_rpc_services.Core.{
  Emitter, publish_response, publish_and_finalize, emit_error_final, on_handled, dispatch,
  on_received, process_request,
}
use meshcore_rpc_services.Core.Answers.{
  Answer, calm, failure, answer_of, started, routed, answer, answered, Calm, Calm-IsStable,
  Keeps-record_event-Calm, Keeps-publish_response-Calm,
}
use meshcore_rpc_services.Errors
use meshcore_rpc_services.Geo.{Platform}
use meshcore_rpc_services.Handlers.{default_handlers}
use meshcore_rpc_services.Handlers.Keeping.{HandlerKeeps, default_handlers-Keeps}
use meshcore_rpc_services.Handlers.Protocol.{Handler}
use meshcore_rpc_services.Router
use meshcore_rpc_services.Router.{Router}
use meshcore_rpc_services.Router.Registered.{resolve-All}
use meshcore_rpc_services.Runtime.{
  World, Result, ok, err, rpc_error, timeout_error, crash, M, attempt, perform, step, time, pure,
  gets, ◌>>=◌,
}
use meshcore_rpc_services.Runtime.Calls.{
  write, record_received, record_event, record_completion, mark_node_seen,
}
use meshcore_rpc_services.Runtime.Keeps.{Keeps}
use meshcore_rpc_services.Schemas.{Request, Response}
use meshcore_rpc_services.Store.Nodes
use meshcore_rpc_services.Store.Requests
use meshcore_rpc_services.Store.Requests.{has_key, completed}
use meshcore_rpc_services.Store.Rows.{RequestRow, Db}
use meshcore_rpc_services.Timeouts.Policy.{TimeoutPolicy, resolve}
use meshcore_rpc_services.Tracker.{run_with_timeout}
use meshcore_rpc_services.Tracker.Rules.{Keeps-run_with_timeout}

-- After an action that returns and keeps `P`, what follows decides.
pub after_ok :
    {A B : Type 0} (P : World → Type 0) (Q : Result B × World → Type 0) (m : M A) (f : A → M B)
    (w : World)
    → ((v : World) → P v → (a : A) → Q (f a v))
    → P (m w).1
    → (a : A) → (m w).0 ≡ ok a
    → Q ((m >>= f) w)
unfolding ◌>>=◌
after_ok P Q m f w k h a e = rw e (k _ h a)

pub performed :
    {A : Type 0} (call : World → A × World) (w : World)
    → w.script ≡ []
    → perform call w ≡ (let (a, w') = call w in (ok a, w'))
unfolding perform step
performed call w e = rw e refl

module _ (rows : List RequestRow) (now : Fixed) (emit : Emitter) (request : Request)
    (emit-keeps : (n : String) (r : Response) → Keeps (Calm rows now) (emit n r)) where
  completion_stored :
      (a : Answer) (w : World)
      → Calm rows now w
      → (record_completion request.id request.from_ a.final_state
          (some a.response)
          a.error_code
          w).1.db.requests
        ≡ answered request a now rows
  unfolding record_completion write Requests.record_completion
  completion_stored a w h = rw (performed _ w h.0, h.1, h.2) refl

  returned : (r : Response) (w : World) → (publish_response emit request r w).0 ≡ ok tt
  unfolding publish_response attempt pure ◌>>=◌
  returned r w = refl

  finalize_stored :
      (a : Answer) (w : World)
      → Calm rows now w
      → (publish_and_finalize emit request a.response a.final_state a.error_code w).1.db.requests
        ≡ answered request a now rows
  unfolding publish_and_finalize
  finalize_stored a w h =
      after_ok (Calm rows now) (λ o. o.1.db.requests ≡ answered request a now rows) _ _ w
        (λ v c u. completion_stored a v c)
        ((Keeps-publish_response-Calm rows now emit request emit-keeps a.response).at w h) tt
        (returned a.response w)

  event_ok :
      (state : String) (w : World)
      → w.script ≡ []
      → (record_event request.id request.from_ state none w).0 ≡ ok tt
  unfolding record_event write
  event_ok state w e = rw (performed _ w e) refl

  failure_stored :
      (code message : String) (w : World)
      → Calm rows now w
      → (emit_error_final emit request code message w).1.db.requests
        ≡ answered request (failure request code message) now rows
  unfolding emit_error_final
  failure_stored code message w h = finalize_stored (failure request code message) w h

  handled_stored :
      (ttl : ℤ) (r : Result Response) (w : World)
      → Calm rows now w
      → (on_handled emit request ttl r w).1.db.requests
        ≡ answered request (answer_of request ttl r) now rows
  unfolding on_handled
  handled_stored ttl (ok resp) w h = finalize_stored (answer_of request ttl (ok resp)) w h
  handled_stored ttl (err (rpc_error e)) w h = failure_stored e.code e.message w h
  handled_stored ttl (err (crash name)) w h = failure_stored Errors.internal name w h
  handled_stored ttl (err timeout_error) w h =
      after_ok (Calm rows now)
        (λ o.
          o.1.db.requests ≡ answered request (answer_of request ttl (err timeout_error)) now rows)
        _ _ w (λ v c u. failure_stored _ _ v c) ((Keeps-record_event-Calm rows now _ _ _ _).at w h)
        tt (event_ok _ w h.0)

-- Processing a request at once stores the answer.
module _ (emit : Emitter)
    (emit-keeps : (rows : List RequestRow) (now : Fixed) (n : String) (r : Response)
      → Keeps (Calm rows now) (emit n r))
    (p : Platform) (router : Router) (made : Router.make (default_handlers p) ≡ some router)
    (request : Request) where
  handler-Calm :
      (rows : List RequestRow) (now : Fixed) (ttl : ℤ) (h : Handler) (w : World)
      → Router.resolve request.type router ≡ some h
      → Calm rows now w
      → Calm rows now (run_with_timeout (h.handle request) ttl w).1
  handler-Calm rows now ttl h w found c =
      (Keeps-run_with_timeout (h.handle request) ttl
          (resolve-All (HandlerKeeps (Calm rows now)) (default_handlers p) router request.type h
            made (default_handlers-Keeps (Calm-IsStable rows now) p) found request)
          (λ w n v. v) (λ w b v. v)).at
        w c

  -- What a new request stores, by the handler that it resolves to.
  routed_stored :
      (ttl : ℤ) (w : World) (o : Option Handler)
      → Router.resolve request.type router ≡ o
      → any (has_key request.id request.from_) w.db.requests ≡ false
      → (on_received emit request router ttl
          (ok true)
          (record_received request ttl (calm w)).1).1.db.requests
        ≡ answered request
            (routed request ttl w o)
            w.clock
            (Requests.record_received request ttl w.clock w.db).1.requests
  unfolding on_received dispatch record_event mark_node_seen record_received write ◌>>=◌ perform
      step Requests.record_event Nodes.mark_node_seen time gets attempt
  routed_stored ttl w none e new = rw e (
      failure_stored _ w.clock emit request (emit-keeps _ w.clock) Errors.unknown_type _ _
        (refl, refl, refl))
  routed_stored ttl w (some h) e new = rw e (
      handled_stored _ w.clock emit request (emit-keeps _ w.clock) ttl _ _ (
        handler-Calm (Requests.record_received request ttl w.clock w.db).1.requests w.clock ttl h
          (started request ttl w) e (refl, refl, refl)))

  duplicate_stored :
      (ttl : ℤ) (w : World)
      → (on_received emit request router ttl (ok false) (calm w)).1.db.requests
        ≡ answered request
            (failure request Errors.duplicate "Duplicate request id for this node")
            w.clock
            w.db.requests
  unfolding on_received record_event write ◌>>=◌ perform step Requests.record_event
  duplicate_stored ttl w =
      failure_stored w.db.requests w.clock emit request (emit-keeps _ w.clock) Errors.duplicate _ _
        (refl, refl, refl)

  pub known_received :
      (ttl : ℤ) (now : Fixed) (db : Db)
      → any (has_key request.id request.from_) db.requests ≡ true
      → Requests.record_received request ttl now db ≡ (false, db)
  unfolding Requests.record_received
  known_received ttl now db old = rw old refl

  pub new_received :
      (ttl : ℤ) (now : Fixed) (db : Db)
      → any (has_key request.id request.from_) db.requests ≡ false
      → (Requests.record_received request ttl now db).0 ≡ true
  unfolding Requests.record_received
  new_received ttl now db new = rw new refl

  -- The pipeline goes on with what `record_received` returned.
  pub received_first :
      (policy : TimeoutPolicy) (w : World)
      → let ttl = resolve policy request.type request.ttl in
        process_request emit request router policy (calm w)
        ≡ on_received emit request router ttl
            (ok (Requests.record_received request ttl w.clock w.db).0)
            (record_received request ttl (calm w)).1
  unfolding process_request attempt ◌>>=◌ perform step record_received
  received_first policy w = refl

  pub known_first :
      (ttl : ℤ) (w : World)
      → any (has_key request.id request.from_) w.db.requests ≡ true
      → (record_received request ttl (calm w)).1 ≡ calm w
  unfolding record_received perform step
  known_first ttl w old = rw (known_received ttl w.clock w.db old) refl

  -- Where every awaited call is performed at once, the table of requests holds afterwards what it
  -- held before, the new request, and in every row of the request the answer: duplicate, unknown
  -- type, or what the handler comes to when it is started on the state after the bookkeeping.
  pub process_request-answer :
      (policy : TimeoutPolicy) (w : World)
      → let ttl = resolve policy request.type request.ttl in
        (process_request emit request router policy (calm w)).1.db.requests
        ≡ answered request
            (answer request router ttl w)
            w.clock
            (Requests.record_received request ttl w.clock w.db).1.requests
  process_request-answer policy w =
      elim (Bool-cases (any (has_key request.id request.from_) w.db.requests)) [
        | inl old ↦
            rw
              (
                received_first policy w,
                known_first _ w old,
                known_received (resolve policy request.type request.ttl) w.clock w.db old,
                old,
              )
              (duplicate_stored _ w)
        | inr new ↦
            rw
              (
                received_first policy w,
                new_received (resolve policy request.type request.ttl) w.clock w.db new,
                new,
              )
              (routed_stored _ w _ refl new)
      ]
