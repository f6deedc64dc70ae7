-- ===== src/Core/Answers.antt =====
-- The row that the pipeline stores, against a description of the answer of a request.
use meshcore_rpc_services.Prelude.{
  ◌≡◌, ◌∙◌, Option, none, some, List, [], ◌∷◌, String, format, any, map, if◌then◌else◌,
}
use meshcore_rpc_services.Prelude.Int.{ℤ, Fixed, show_int}
use meshcore_rpc_services.Core.{Emitter, publish_response}
use meshcore_rpc_services.Errors
use meshcore_rpc_services.Handlers.Protocol.{Handler}
use meshcore_rpc_services.Lifecycle
use meshcore_rpc_services.Router
use meshcore_rpc_services.Router.{Router}
use meshcore_rpc_services.Runtime.{
  World, Result, ok, err, rpc_error, timeout_error, crash, Outcome, after,
}
use meshcore_rpc_services.Runtime.Calls.{write, record_event}
use meshcore_rpc_services.Runtime.Keeps.{
  Keeps, Keeps-perform, Keeps-bind, Keeps-attempt, Keeps-pure,
}
use meshcore_rpc_services.Runtime.Stable.{IsStable}
use meshcore_rpc_services.Schemas.{Request, Response, make_error}
use meshcore_rpc_services.Store.Nodes
use meshcore_rpc_services.Store.Requests
use meshcore_rpc_services.Store.Requests.{has_key, completed}
use meshcore_rpc_services.Store.Rows.{RequestRow}
use meshcore_rpc_services.Tracker.{run_with_timeout}

-- How a request ends: what is stored of it, and what is published.
pub record Answer : Type 0 where
  pub final_state : String
  pub response : Response
  pub error_code : Option String

-- The awaited calls are performed at once and do not fail.
abbrev pub calm : World → World
calm w = record w { script = [] }

module _ (request : Request) where
  abbrev pub failure : String → String → Answer
  failure code message = record {
    final_state = Lifecycle.completed_error;
    response = make_error request.id request.type request.from_ code message;
    error_code = some code;
  }

  -- By how the handler ended.
  abbrev pub answer_of : ℤ → Result Response → Answer
  unfolding format show_int
  answer_of ttl (ok resp) = record {
    final_state = Lifecycle.completed_ok;
    response = resp;
    error_code = none;
  }
  answer_of ttl (err timeout_error) =
      failure Errors.timeout (format ("No response before timeout (" ∷ show_int ttl ∷ "s)" ∷ []))
  answer_of ttl (err (rpc_error e)) = failure e.code e.message
  answer_of ttl (err (crash name)) = failure Errors.internal name

  -- The state in which the handler of a new request is started.
  abbrev pub started : ℤ → World → World
  started ttl w = record (calm w) {
    db = Requests.record_event request.id request.from_ Lifecycle.handler_started none w.clock (
        Nodes.mark_node_seen request.from_ w.clock (
          Requests.record_event request.id request.from_ Lifecycle.validated none w.clock
            (Requests.record_received request ttl w.clock w.db).1));
  }

  abbrev pub routed : ℤ → World → Option Handler → Answer
  unfolding format
  routed ttl w none =
      failure Errors.unknown_type (format ("Unknown request type: " ∷ request.type ∷ []))
  routed ttl w (some h) = answer_of ttl (run_with_timeout (h.handle request) ttl (started ttl w)).0

  abbrev pub answer : Router → ℤ → World → Answer
  answer router ttl w =
      if any (has_key request.id request.from_) w.db.requests
      then failure Errors.duplicate "Duplicate request id for this node"
      else routed ttl w (Router.resolve request.type router)

  -- `rows` with the answer in the rows of the request.
  abbrev pub answered : Answer → Fixed → List RequestRow → List RequestRow
  answered a now rows =
      map (completed request.id request.from_ a.final_state (some a.response) a.error_code now) rows

-- The requests are these, the time is this, and nothing fails.
abbrev pub Calm : List RequestRow → Fixed → World → Type 0
Calm rows now w = (w.script ≡ []) × (w.db.requests ≡ rows) × (w.clock ≡ now)

module _ (rows : List RequestRow) (now : Fixed) where
  Calm-tick :
      (w w' : World) (o : Outcome) (rest : List Outcome)
      → w.script ≡ o ∷ rest
      → Calm rows now w
      → Calm rows now w'
  Calm-tick w w' o rest e h = cc (e, h.0)

  pub Calm-IsStable : IsStable (Calm rows now)
  Calm-IsStable = record {
    tick = λ w t o rest e h. Calm-tick w (after t rest w) o rest e h;
    tables = λ w db same h. (h.0, same ∙ h.1, h.2);
    radio = λ w r h. h;
    retained = λ w topic payload h. h;
  }

  pub Keeps-record_event-Calm :
      (id node_id state : String) (detail : Option String)
      → Keeps (Calm rows now) (record_event id node_id state detail)
  unfolding record_event write Requests.record_event
  Keeps-record_event-Calm id node_id state detail = Keeps-perform _ Calm-IsStable.tick (λ w h. h)

  module _ (emit : Emitter) (request : Request)
      (emit-keeps : (n : String) (r : Response) → Keeps (Calm rows now) (emit n r)) where
    pub Keeps-publish_response-Calm :
        (response : Response) → Keeps (Calm rows now) (publish_response emit request response)
    unfolding publish_response
    Keeps-publish_response-Calm response =
        Keeps-bind _ _
          (Keeps-attempt _
            (Keeps-bind _ _ (emit-keeps _ response) (λ _. Keeps-record_event-Calm _ _ _ _)))
          (λ _. Keeps-pure tt)
