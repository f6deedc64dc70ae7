-- ===== src/Core/Rules.antt =====
-- A proof rule for the pipeline: what to show of a predicate on the state so that processing a
-- request keeps it, whatever the environment does.
use meshcore_rpc_services.Prelude.{◌≡◌, refl, Bool, true, false, Option, none, some, String}
use meshcore_rpc_services.Prelude.Int.{ℤ, Fixed}
use meshcore_rpc_services.Core.{
  Emitter, publish_response, publish_and_finalize, emit_error_final, on_handled, dispatch,
  on_received, process_request,
}
use meshcore_rpc_services.Handlers.Protocol.{Handler}
use meshcore_rpc_services.Lifecycle
use meshcore_rpc_services.Router
use meshcore_rpc_services.Router.{Router}
use meshcore_rpc_services.Runtime.{World, Result, ok, err, rpc_error, timeout_error, crash}
use meshcore_rpc_services.Runtime.Calls.{
  record_received, record_event, record_completion, mark_node_seen,
}
use meshcore_rpc_services.Runtime.Keeps.{Keeps, Keeps-bind, Keeps-attempt, Keeps-time, keeps_rules}
use meshcore_rpc_services.Runtime.Yields.{Yields, Keeps-bind_attempt}
use meshcore_rpc_services.Schemas.{Request, Response, make_error}
use meshcore_rpc_services.Timeouts.Policy.{TimeoutPolicy}
use meshcore_rpc_services.Tracker.{run_with_timeout}

-- For a predicate that only some responses keep when they are emitted: the errors of the pipeline and
-- what the handlers return have to be `Good`.
pub record ReplyRule (P : World → Type 0) (Good : Response → Type 0) (emit : Emitter)
    (request : Request) (router : Router) : Type 0 where
  pub received : (ttl : ℤ) → Keeps P (record_received request ttl)
  pub event :
      (state : String) (detail : Option String)
      → Keeps P (record_event request.id request.from_ state detail)
  pub seen : (ts : Fixed) → Keeps P (mark_node_seen request.from_ ts)
  pub emitted : (response : Response) → Good response → Keeps P (emit request.from_ response)
  pub succeeded :
      (response : Option Response) (code : Option String)
      → Keeps P (record_completion request.id request.from_ Lifecycle.completed_ok response code)
  pub failed :
      (response : Option Response) (code : Option String)
      → Keeps P (record_completion request.id request.from_ Lifecycle.completed_error response code)
  pub refusal :
      (code message : String) → Good (make_error request.id request.type request.from_ code message)
  pub handled :
      (h : Handler) (ttl : ℤ)
      → Router.resolve request.type router ≡ some h
      → Keeps P (run_with_timeout (h.handle request) ttl)
  pub answered :
      (h : Handler) (ttl : ℤ)
      → Router.resolve request.type router ≡ some h
      → Yields Good (run_with_timeout (h.handle request) ttl)

module _ {P : World → Type 0} {Good : Response → Type 0} {emit : Emitter} {request : Request}
    {router : Router} (rule : ReplyRule P Good emit request router) where
  open rule use {received, event, seen, emitted, succeeded, failed, refusal, handled, answered}

  Keeps-publish_response :
      (response : Response) → Good response → Keeps P (publish_response emit request response)
  unfolding publish_response
  Keeps-publish_response response good =
      search (keeps_rules, event, Keeps-bind _ _ (emitted response good))

  Keeps-emit_error_final :
      (code message : String) → Keeps P (emit_error_final emit request code message)
  unfolding emit_error_final publish_and_finalize
  Keeps-emit_error_final code message =
      Keeps-bind _ _ (Keeps-publish_response _ (refusal code message)) (λ _. failed _ _)

  Keeps-on_handled :
      (ttl : ℤ) (r : Result Response)
      → ((resp : Response) → r ≡ ok resp → Good resp)
      → Keeps P (on_handled emit request ttl r)
  unfolding on_handled publish_and_finalize
  Keeps-on_handled ttl (ok resp) good =
      Keeps-bind _ _ (Keeps-publish_response resp (good resp refl)) (λ _. succeeded _ _)
  Keeps-on_handled ttl (err timeout_error) good =
      search (keeps_rules, event, Keeps-emit_error_final)
  Keeps-on_handled ttl (err (rpc_error e)) good = Keeps-emit_error_final _ _
  Keeps-on_handled ttl (err (crash name)) good = Keeps-emit_error_final _ _

  Keeps-dispatch :
      (ttl : ℤ) (o : Option Handler)
      → ((h : Handler) → o ≡ some h → Router.resolve request.type router ≡ some h)
      → Keeps P (dispatch emit request ttl o)
  unfolding dispatch
  Keeps-dispatch ttl none found = search (keeps_rules, event, Keeps-emit_error_final)
  Keeps-dispatch ttl (some h) found = Keeps-bind _ _ (event Lifecycle.handler_started none) (λ _.
      Keeps-bind_attempt _ _ (handled h ttl (found h refl)) (answered h ttl (found h refl))
        (Keeps-on_handled ttl))

  Keeps-on_reply : (ttl : ℤ) (r : Result Bool) → Keeps P (on_received emit request router ttl r)
  unfolding on_received
  Keeps-on_reply ttl (err e) = Keeps-emit_error_final _ _
  Keeps-on_reply ttl (ok false) = search (keeps_rules, event, Keeps-emit_error_final)
  Keeps-on_reply ttl (ok true) = Keeps-bind _ _ (event Lifecycle.validated none) (λ _.
      Keeps-bind _ _ Keeps-time (λ now.
        Keeps-bind _ _ (seen now)
          (λ _. Keeps-dispatch ttl (Router.resolve request.type router) (λ h e. e))))

  pub process_request-Replies :
      (policy : TimeoutPolicy) → Keeps P (process_request emit request router policy)
  unfolding process_request
  process_request-Replies policy =
      Keeps-bind _ _ (Keeps-attempt _ (received _)) (λ r. Keeps-on_reply _ r)

pub record Rule (P : World → Type 0) (emit : Emitter) (request : Request) (router : Router)
    : Type 0 where
  pub received : (ttl : ℤ) → Keeps P (record_received request ttl)
  pub event :
      (state : String) (detail : Option String)
      → Keeps P (record_event request.id request.from_ state detail)
  pub seen : (ts : Fixed) → Keeps P (mark_node_seen request.from_ ts)
  pub emitted : (response : Response) → Keeps P (emit request.from_ response)
  pub succeeded :
      (response : Option Response) (code : Option String)
      → Keeps P (record_completion request.id request.from_ Lifecycle.completed_ok response code)
  pub failed :
      (response : Option Response) (code : Option String)
      → Keeps P (record_completion request.id request.from_ Lifecycle.completed_error response code)
  pub handled :
      (h : Handler) (ttl : ℤ)
      → Router.resolve request.type router ≡ some h
      → Keeps P (run_with_timeout (h.handle request) ttl)

module _ {P : World → Type 0} {emit : Emitter} {request : Request} {router : Router}
    (rule : Rule P emit request router) where
  open rule use {received, event, seen, emitted, succeeded, failed, handled}

  -- Every response is good.
  any_reply : ReplyRule P (λ r. Unit) emit request router
  any_reply = record {
    received = received;
    event = event;
    seen = seen;
    emitted = λ r good. emitted r;
    succeeded = succeeded;
    failed = failed;
    refusal = λ code message. tt;
    handled = handled;
    answered = λ h ttl found. record { at = λ w a e. tt };
  }

  pub Keeps-on_received :
      (ttl : ℤ) (r : Result Bool) → Keeps P (on_received emit request router ttl r)
  Keeps-on_received = Keeps-on_reply any_reply

  pub process_request-Keeps :
      (policy : TimeoutPolicy) → Keeps P (process_request emit request router policy)
  process_request-Keeps = process_request-Replies any_reply
