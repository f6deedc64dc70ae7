-- ===== src/Core.antt =====
-- meshcore_rpc_services/core.py: the pipeline that every valid request goes through.
pub mod Replies
pub mod Rules
pub mod Invariant
pub mod Balance
pub mod Completion
pub mod Returns
pub mod Recorded
pub mod Answers
pub mod Stored
use meshcore_rpc_services.Prelude.{Bool, true, false, Option, none, some, [], ◌∷◌, String, format}
use meshcore_rpc_services.Prelude.Int.{ℤ, show_int}
use meshcore_rpc_services.Errors
use meshcore_rpc_services.Handlers.Protocol.{Handler}
use meshcore_rpc_services.Lifecycle
use meshcore_rpc_services.Router
use meshcore_rpc_services.Router.{Router}
use meshcore_rpc_services.Runtime.{
  Exn, rpc_error, timeout_error, crash, Result, ok, err, M, pure, attempt, time, ◌>>=◌, ◌>>◌,
}
use meshcore_rpc_services.Runtime.Calls.{
  record_received, record_event, record_completion, mark_node_seen,
}
use meshcore_rpc_services.Schemas.{Request, Response, make_error}
use meshcore_rpc_services.Timeouts.Policy.{TimeoutPolicy, resolve}
use meshcore_rpc_services.Tracker.{run_with_timeout}

-- `ResponseEmitter`
abbrev pub Emitter : Type 0
Emitter = String → Response → M Unit

module _ (emit : Emitter) (request : Request) where
  -- The `try` block: an exception in it is logged, and the request is completed all the same.
  unfoldable pub publish_response : Response → M Unit
  publish_response response = do
    attempt (do
      emit request.from_ response
      record_event request.id request.from_ Lifecycle.response_published none)
    pure tt

  unfoldable pub publish_and_finalize : Response → String → Option String → M Unit
  unfolding publish_response
  publish_and_finalize response final_state error_code = do
    publish_response response
    record_completion request.id request.from_ final_state (some response) error_code

  unfoldable pub emit_error_final : String → String → M Unit
  unfolding publish_and_finalize
  emit_error_final code message =
      publish_and_finalize (make_error request.id request.type request.from_ code message)
        Lifecycle.completed_error (some code)

  -- What follows the handler, by how it ended.
  unfoldable pub on_handled : ℤ → Result Response → M Unit
  unfolding emit_error_final format show_int
  on_handled ttl (ok resp) = publish_and_finalize resp Lifecycle.completed_ok none
  on_handled ttl (err timeout_error) = do
    record_event request.id request.from_ Lifecycle.timeout none
    emit_error_final Errors.timeout
        (format ("No response before timeout (" ∷ show_int ttl ∷ "s)" ∷ []))
  on_handled ttl (err (rpc_error e)) = emit_error_final e.code e.message
  on_handled ttl (err (crash name)) = emit_error_final Errors.internal name

  unfoldable pub dispatch : ℤ → Option Handler → M Unit
  unfolding on_handled
  dispatch ttl none = do
    record_event request.id request.from_ Lifecycle.rejected (some "unknown_type")
    emit_error_final Errors.unknown_type (format ("Unknown request type: " ∷ request.type ∷ []))
  dispatch ttl (some handler) = do
    record_event request.id request.from_ Lifecycle.handler_started none
    handled ← attempt (run_with_timeout (handler.handle request) ttl)
    on_handled ttl handled

  -- What follows `record_received`, by its outcome.
  unfoldable pub on_received : Router → ℤ → Result Bool → M Unit
  unfolding dispatch
  on_received router ttl (err e) = emit_error_final Errors.internal "persistence error"
  on_received router ttl (ok false) = do
    record_event request.id request.from_ Lifecycle.rejected (some "duplicate")
    emit_error_final Errors.duplicate "Duplicate request id for this node"
  on_received router ttl (ok true) = do
    record_event request.id request.from_ Lifecycle.validated none
    now ← time
    mark_node_seen request.from_ now
    dispatch ttl (Router.resolve request.type router)

  unfoldable pub process_request : Router → TimeoutPolicy → M Unit
  unfolding on_received
  process_request router policy = do
    let ttl = resolve policy request.type request.ttl
    fresh ← attempt (record_received request ttl)
    on_received router ttl fresh
