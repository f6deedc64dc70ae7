-- ===== src/Transport/Service/Lifetime/Idling.antt =====
-- While the service consumes messages, its calls go on being performed at once, and the connection stays.
use meshcore_rpc_services.Prelude.{◌≡◌, Bool, Option, none, some, List, [], ◌∷◌, String, ◌==◌}
use meshcore_rpc_services.Prelude.Int.{ℤ, Fixed}
use meshcore_rpc_services.Core.Rules.{process_request-Keeps}
use meshcore_rpc_services.Geo.{Platform}
use meshcore_rpc_services.Handlers.{default_handlers}
use meshcore_rpc_services.Handlers.Keeping.{HandlerKeeps, default_handlers-Keeps}
use meshcore_rpc_services.Router
use meshcore_rpc_services.Router.{Router}
use meshcore_rpc_services.Router.Registered.{resolve-All}
use meshcore_rpc_services.Runtime.{World, Exn, Outcome, after}
use meshcore_rpc_services.Runtime.Calls.{
  write, publish, send, record_received, record_event, record_completion,
}
use meshcore_rpc_services.Runtime.Keeps.{
  Keeps, Keeps-perform, Keeps-bind, Keeps-attempt, Keeps-if, Keeps-pure, Keeps-raise, Keeps-gets,
  Keeps-modify,
}
use meshcore_rpc_services.Runtime.Stable.{IsStable, Keeps-mark_node_seen}
use meshcore_rpc_services.Schemas.{Request, Response}
use meshcore_rpc_services.Store.Rows.{Db}
use meshcore_rpc_services.Timeouts.Policy.{TimeoutPolicy}
use meshcore_rpc_services.Topics
use meshcore_rpc_services.Tracker.Rules.{Keeps-run_with_timeout}
use meshcore_rpc_services.Transport.Adapter.{Codec}
use meshcore_rpc_services.Transport.Service.{emit, emit_adapter_error, on_envelope, handle_one}
use meshcore_rpc_services.Transport.Service.Emitting.{Keeps-emit}
use meshcore_rpc_services.Transport.Service.Events.{GatewayEvent, consume, is_routed}
use meshcore_rpc_services.Transport.Service.Events.Keeping.{Keeps-route_event, Keeps-maybe_cache}
use meshcore_rpc_services.Transport.Service.Lifetime.{
  Piece, stored, emitted, counted, run_piece, go_on, Turn, incoming, meanwhile, Received,
  consume_all, consume_loop, left,
}

-- The awaited calls are performed at once, and the broker is connected or not.
abbrev pub Idle : Bool → World → Type 0
Idle b w = (w.script ≡ []) × (w.connected ≡ b)

module _ (b : Bool) where
  Idle-tick :
      (w w' : World) (o : Outcome) (rest : List Outcome)
      → w.script ≡ o ∷ rest
      → Idle b w
      → Idle b w'
  Idle-tick w w' o rest e h = cc (e, h.0)

  pub Idle-IsStable : IsStable (Idle b)
  Idle-IsStable = record {
    tick = λ w t o rest e h. Idle-tick w (after t rest w) o rest e h;
    tables = λ w db same h. h;
    radio = λ w r h. h;
    retained = λ w topic payload h. h;
  }

  Keeps-write-Idle : (statement : Fixed → Db → Db) → Keeps (Idle b) (write statement)
  unfolding write
  Keeps-write-Idle statement = Keeps-perform _ Idle-IsStable.tick (λ w h. h)

  Keeps-record_received-Idle :
      (request : Request) (ttl : ℤ) → Keeps (Idle b) (record_received request ttl)
  unfolding record_received
  Keeps-record_received-Idle request ttl = Keeps-perform _ Idle-IsStable.tick (λ w h. h)

  pub Keeps-run_piece-Idle : (piece : Piece) → Keeps (Idle b) (run_piece piece)
  unfolding run_piece publish send
  Keeps-run_piece-Idle (stored statement) = Keeps-write-Idle statement
  Keeps-run_piece-Idle (emitted topic payload retain) = Keeps-bind _ _ (Keeps-gets _) (λ connected.
      Keeps-if connected _ _ (Keeps-perform _ Idle-IsStable.tick (λ w h. h)) (Keeps-raise _))
  Keeps-run_piece-Idle (counted n) = Keeps-modify _ (λ w h. h)

  pub Keeps-go_on-Idle : (pieces : List Piece) → Keeps (Idle b) (go_on pieces)
  unfolding go_on
  Keeps-go_on-Idle [] = Keeps-pure tt
  Keeps-go_on-Idle (piece ∷ rest) =
      Keeps-bind _ _ (Keeps-attempt _ (Keeps-run_piece-Idle piece)) (λ _. Keeps-go_on-Idle rest)

  Keeps-emit-Idle : (node_id : String) (r : Response) → Keeps (Idle b) (emit node_id r)
  Keeps-emit-Idle = Keeps-emit Idle-IsStable.tick (λ w m h. h)

  Keeps-emit_adapter_error-Idle : (o : Option Response) → Keeps (Idle b) (emit_adapter_error o)
  unfolding emit_adapter_error
  Keeps-emit_adapter_error-Idle none = Keeps-pure tt
  Keeps-emit_adapter_error-Idle (some r) =
      Keeps-bind _ _ (Keeps-attempt _ (Keeps-emit-Idle _ r)) (λ _. Keeps-pure tt)

  module _ (c : Codec) (p : Platform) (router : Router) (policy : TimeoutPolicy)
      (read_event : String → Option GatewayEvent)
      (made : Router.make (default_handlers p) ≡ some router) where
    Keeps-on_envelope-Idle :
        (o : Option Request) (e : Option Response) → Keeps (Idle b) (on_envelope router policy o e)
    unfolding on_envelope record_event record_completion
    Keeps-on_envelope-Idle none e = Keeps-emit_adapter_error-Idle e
    Keeps-on_envelope-Idle (some request) e =
        process_request-Keeps
          (record {
            received = Keeps-record_received-Idle request;
            event = λ s d. Keeps-write-Idle _;
            seen = Keeps-mark_node_seen Idle-IsStable request.from_;
            emitted = Keeps-emit-Idle request.from_;
            succeeded = λ r x. Keeps-write-Idle _;
            failed = λ r x. Keeps-write-Idle _;
            handled = λ h ttl found.
                Keeps-run_with_timeout _ ttl
                  (resolve-All (HandlerKeeps (Idle b)) (default_handlers p) router request.type h
                    made (default_handlers-Keeps Idle-IsStable p) found request)
                  (λ w n v. v) (λ w x v. v);
          })
          policy

    Keeps-consume-Idle :
        (topic payload : String) → Keeps (Idle b) (consume c router policy read_event topic payload)
    unfolding consume handle_one
    Keeps-consume-Idle topic payload =
        Keeps-if (topic == Topics.rpc_request) _ _ (Keeps-on_envelope-Idle _ _) (
          Keeps-if (is_routed topic) _ _
            (Keeps-bind _ _
              (Keeps-attempt _
                (Keeps-route_event Idle-IsStable (λ w s h. h) c read_event topic payload))
              (λ _. Keeps-pure tt))
            (Keeps-pure tt))

    Keeps-consume_all-Idle :
        (turns : List Turn) → Keeps (Idle b) (consume_all c router policy read_event turns)
    unfolding consume_all
    Keeps-consume_all-Idle [] = Keeps-pure tt
    Keeps-consume_all-Idle (incoming topic payload ∷ rest) =
        Keeps-bind _ _ (Keeps-maybe_cache Idle-IsStable (λ w s h. h) c topic payload) (λ _.
          Keeps-bind _ _ (Keeps-attempt _ (Keeps-consume-Idle topic payload))
            (λ _. Keeps-consume_all-Idle rest))
    Keeps-consume_all-Idle (meanwhile pieces ∷ rest) =
        Keeps-bind _ _ (Keeps-go_on-Idle pieces) (λ _. Keeps-consume_all-Idle rest)

    Keeps-left : (o : Option Exn) → Keeps (Idle b) (left o)
    Keeps-left none = Keeps-pure tt
    Keeps-left (some e) = Keeps-raise e

    pub Keeps-consume_loop-Idle :
        (received : Received) → Keeps (Idle b) (consume_loop c router policy read_event received)
    unfolding consume_loop
    Keeps-consume_loop-Idle received =
        Keeps-bind _ _ (Keeps-consume_all-Idle received.turns) (λ _. Keeps-left received.ended)
