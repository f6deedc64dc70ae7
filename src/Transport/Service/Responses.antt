-- ===== src/Transport/Service/Responses.antt =====
-- What the pipeline publishes: one response, to the sender of the request.
use meshcore_rpc_services.Prelude.{
  ◌≡◌, refl, Bool, true, false, Option, none, some, List, [], ◌++◌, String, any, Bool-cases, inl,
  inr,
}
use meshcore_rpc_services.Prelude.Int.{ℤ, Fixed}
use meshcore_rpc_services.Core.{
  publish_response, publish_and_finalize, emit_error_final, on_handled, dispatch, on_received,
  process_request,
}
use meshcore_rpc_services.Core.Answers.{
  Answer, calm, failure, answer_of, started, routed, answer, Calm-IsStable,
}
use meshcore_rpc_services.Core.Stored.{
  after_ok, performed, known_received, new_received, received_first, known_first,
}
use meshcore_rpc_services.Errors
use meshcore_rpc_services.Geo.{Platform}
use meshcore_rpc_services.Handlers.{default_handlers}
use meshcore_rpc_services.Handlers.Keeping.{HandlerKeeps, default_handlers-Keeps}
use meshcore_rpc_services.Handlers.Protocol.{Handler}
use meshcore_rpc_services.Lifecycle
use meshcore_rpc_services.Router
use meshcore_rpc_services.Router.{Router}
use meshcore_rpc_services.Router.Registered.{resolve-All}
use meshcore_rpc_services.Runtime.{
  World, Message, Result, ok, err, rpc_error, timeout_error, crash, attempt, perform, step, time,
  pure, gets, continue, ◌>>=◌,
}
use meshcore_rpc_services.Runtime.Calls.{
  write, record_received, record_event, record_completion, mark_node_seen, message,
}
use meshcore_rpc_services.Runtime.Keeps.{Keeps}
use meshcore_rpc_services.Schemas.{Request, Response}
use meshcore_rpc_services.Store.Nodes
use meshcore_rpc_services.Store.Requests
use meshcore_rpc_services.Store.Requests.{has_key}
use meshcore_rpc_services.Store.Rows.{RequestRow}
use meshcore_rpc_services.Timeouts.Policy.{TimeoutPolicy, resolve}
use meshcore_rpc_services.Tracker.{run_with_timeout}
use meshcore_rpc_services.Tracker.Rules.{Keeps-run_with_timeout}
use meshcore_rpc_services.Transport.Service.{emit}
use meshcore_rpc_services.Transport.Service.Emitting.{Keeps-emit}
use meshcore_rpc_services.Transport.Service.Delivery.{
  sent, carried, Sent, Sent-IsStable, Keeps-write-Sent, emit-Sent,
}

module _ (ms : List Message) (c : Bool) (request : Request) where
  -- After the answer was sent.
  abbrev Delivered : Answer → World → Type 0
  Delivered a w = Sent (ms ++ carried request.from_ a.response c) c w

  publish-Delivered :
      (a : Answer) (w : World)
      → Sent ms c w
      → Delivered a (publish_response emit request a.response w).1
  unfolding publish_response attempt pure ◌>>=◌ record_event
  publish-Delivered a w h =
      let (r, w') = emit request.from_ a.response w in
      after_emit a r w' (emit-Sent ms request.from_ a.response c w h)
    where
      after_emit :
          (a : Answer) (r : Result Unit) (v : World)
          → Delivered a v
          → Delivered a
              (continue r
                (λ _. write (
                  Requests.record_event request.id request.from_ Lifecycle.response_published none))
                v).1
      after_emit a (ok u) v h = (Keeps-write-Sent _ c _).at v h
      after_emit a (err e) v h = h

  finalize-Delivered :
      (a : Answer) (w : World)
      → Sent ms c w
      → Delivered a (publish_and_finalize emit request a.response a.final_state a.error_code w).1
  unfolding publish_and_finalize ◌>>=◌ publish_response attempt pure record_completion
  finalize-Delivered a w h =
      (Keeps-write-Sent _ c _).at (publish_response emit request a.response w).1
        (publish-Delivered a w h)

  failure-Delivered :
      (code message : String) (w : World)
      → Sent ms c w
      → Delivered (failure request code message) (emit_error_final emit request code message w).1
  unfolding emit_error_final
  failure-Delivered code message w h = finalize-Delivered (failure request code message) w h

  event_returns :
      (state : String) (w : World)
      → w.script ≡ []
      → (record_event request.id request.from_ state none w).0 ≡ ok tt
  unfolding record_event write
  event_returns state w e = rw (performed _ w e) refl

  Keeps-record_event-Sent :
      (state : String) → Keeps (Sent ms c) (record_event request.id request.from_ state none)
  unfolding record_event
  Keeps-record_event-Sent state = Keeps-write-Sent ms c _

  handled-Delivered :
      (ttl : ℤ) (r : Result Response) (w : World)
      → Sent ms c w
      → Delivered (answer_of request ttl r) (on_handled emit request ttl r w).1
  unfolding on_handled
  handled-Delivered ttl (ok resp) w h = finalize-Delivered (answer_of request ttl (ok resp)) w h
  handled-Delivered ttl (err (rpc_error e)) w h = failure-Delivered e.code e.message w h
  handled-Delivered ttl (err (crash name)) w h = failure-Delivered Errors.internal name w h
  handled-Delivered ttl (err timeout_error) w h =
      after_ok (Sent ms c) (λ o. Delivered (answer_of request ttl (err timeout_error)) o.1) _ _ w
        (λ v s u. failure-Delivered _ _ v s) ((Keeps-record_event-Sent Lifecycle.timeout).at w h) tt
        (event_returns Lifecycle.timeout w h.0)

module _ (p : Platform) (router : Router) (made : Router.make (default_handlers p) ≡ some router)
    (request : Request) where
  handler-Sent :
      (ms : List Message) (c : Bool) (ttl : ℤ) (h : Handler) (w : World)
      → Router.resolve request.type router ≡ some h
      → Sent ms c w
      → Sent ms c (run_with_timeout (h.handle request) ttl w).1
  handler-Sent ms c ttl h w found s =
      (Keeps-run_with_timeout (h.handle request) ttl
          (resolve-All (HandlerKeeps (Sent ms c)) (default_handlers p) router request.type h made
            (default_handlers-Keeps (Sent-IsStable ms c) p) found request)
          (λ w n v. v) (λ w b v. v)).at
        w s

  routed-Delivered :
      (ttl : ℤ) (w : World) (o : Option Handler)
      → Router.resolve request.type router ≡ o
      → Delivered
          (sent w)
          w.connected
          request
          (routed request ttl w o)
          (on_received emit request router ttl (ok true) (record_received request ttl (calm w)).1).1
  unfolding on_received dispatch record_event mark_node_seen record_received write ◌>>=◌ perform
      step Requests.record_event Nodes.mark_node_seen time gets attempt
  routed-Delivered ttl w none e =
      rw e
        (failure-Delivered (sent w) w.connected request Errors.unknown_type _ _ (refl, refl, refl))
  routed-Delivered ttl w (some h) e = rw e (
      handled-Delivered (sent w) w.connected request ttl _ _
        (handler-Sent (sent w) w.connected ttl h (started request ttl w) e (refl, refl, refl)))

  duplicate-Delivered :
      (ttl : ℤ) (w : World)
      → Delivered
          (sent w)
          w.connected
          request
          (failure request Errors.duplicate "Duplicate request id for this node")
          (on_received emit request router ttl (ok false) (calm w)).1
  unfolding on_received record_event write ◌>>=◌ perform step Requests.record_event
  duplicate-Delivered ttl w =
      failure-Delivered (sent w) w.connected request Errors.duplicate _ _ (refl, refl, refl)

  -- Where every awaited call is performed at once, processing a request with the default handlers
  -- sends exactly one message, the response of the answer, to the addressee of the response; and
  -- none where the service is not connected or there is no addressee. Retained state is not counted.
  pub process_request-sends :
      (policy : TimeoutPolicy) (w : World)
      → sent (process_request emit request router policy (calm w)).1
        ≡ sent w
          ++ carried request.from_
              (answer request router (resolve policy request.type request.ttl) w).response
              w.connected
  process_request-sends policy w =
      let ttl = resolve policy request.type request.ttl in
      let keeps = λ (rows : List RequestRow) (now : Fixed).
        Keeps-emit (Calm-IsStable rows now).tick (λ v m h. h) in
      elim (Bool-cases (any (has_key request.id request.from_) w.db.requests)) [
        | inl old ↦
            rw
              (
                received_first emit keeps p router made request policy w,
                known_first emit keeps p router made request ttl w old,
                known_received emit keeps p router made request ttl w.clock w.db old,
                old,
              )
              (duplicate-Delivered ttl w).1
        | inr new ↦
            rw
              (
                received_first emit keeps p router made request policy w,
                new_received emit keeps p router made request ttl w.clock w.db new,
                new,
              )
              (routed-Delivered ttl w _ refl).1
      ]
