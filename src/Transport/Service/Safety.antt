-- ===== src/Transport/Service/Safety.antt =====
-- What holds of the running service: each step handles one message, publishes the health, one fix of the base location, or
-- one sweep from start to end, and between the steps the environment decides how the awaited calls
-- will end.
use meshcore_rpc_services.Prelude.{◌+◌, ◌≡◌, Bool, Option, none, some, List, String, length, ◌==◌}
use meshcore_rpc_services.Prelude.Int.{Fixed}
use meshcore_rpc_services.Core.Invariant.{
  HasValidDb, HasValidDb-IsStable, Keeps-purge_before, process_request-HasValidDb,
}
use meshcore_rpc_services.Geo.{Platform}
use meshcore_rpc_services.Handlers.{default_handlers}
use meshcore_rpc_services.Handlers.Keeping.{default_handlers-Keeps}
use meshcore_rpc_services.Lifecycle
use meshcore_rpc_services.Retention.{RetentionSweeper, run_once}
use meshcore_rpc_services.Router
use meshcore_rpc_services.Router.{Router}
use meshcore_rpc_services.Runtime.{World, Outcome}
use meshcore_rpc_services.Runtime.Keeps.{
  Keeps, Keeps-bind, Keeps-attempt, Keeps-if, Keeps-time, Keeps-pure,
}
use meshcore_rpc_services.Schemas.{Request, Response}
use meshcore_rpc_services.State.Keeping.{Keeps-apply_base_location}
use meshcore_rpc_services.Store.Counting.{counts_total, counts-timeout}
use meshcore_rpc_services.Store.Requests.{count_of}
use meshcore_rpc_services.Store.Requests.{counts}
use meshcore_rpc_services.Timeouts.Policy.{TimeoutPolicy}
use meshcore_rpc_services.Transport.Adapter.{Codec}
use meshcore_rpc_services.Transport.Bus.{maybe_cache}
use meshcore_rpc_services.Gpsd.{GpsdFix}
use meshcore_rpc_services.Transport.Service.Base.{
  BasePublisher, on_fix, publish_fix, init_static_base,
}
use meshcore_rpc_services.Transport.Service.Emitting.{Keeps-emit}
use meshcore_rpc_services.Transport.Service.Events.{
  GatewayEvent, Vcgencmd, publish_health, consume, is_routed,
}
use meshcore_rpc_services.Transport.Service.Events.Keeping.{
  Keeps-publish_health, Keeps-route_event, Keeps-route_direct, Keeps-maybe_cache,
}
use meshcore_rpc_services.Topics
use meshcore_rpc_services.Transport.Service.{
  emit, emit_adapter_error, on_envelope, handle_one, route_direct,
}

Keeps-emit_valid : (node_id : String) (r : Response) → Keeps HasValidDb (emit node_id r)
Keeps-emit_valid = Keeps-emit HasValidDb-IsStable.tick (λ w m h. h)

Keeps-emit_adapter_error : (o : Option Response) → Keeps HasValidDb (emit_adapter_error o)
unfolding emit_adapter_error
Keeps-emit_adapter_error none = Keeps-pure tt
Keeps-emit_adapter_error (some r) =
    Keeps-bind _ _ (Keeps-attempt _ (Keeps-emit_valid _ r)) (λ _. Keeps-pure tt)

Keeps-run_once : (sweeper : RetentionSweeper) → Keeps HasValidDb (run_once sweeper)
unfolding run_once
Keeps-run_once sweeper =
    Keeps-bind _ _ Keeps-time
      (λ now. Keeps-bind _ _ (Keeps-attempt _ (Keeps-purge_before _)) (λ d. Keeps-pure _))

Keeps-on_fix :
    (interval : Fixed) (st : BasePublisher) (fix : GpsdFix)
    → Keeps HasValidDb (on_fix interval st fix)
unfolding on_fix publish_fix
Keeps-on_fix interval st fix = Keeps-bind _ _ Keeps-time (λ now.
    Keeps-if _ _ _ (Keeps-pure st)
      (Keeps-bind _ _ (Keeps-apply_base_location HasValidDb-IsStable _ _) (λ _. Keeps-pure _)))

Keeps-init_static_base : (lat lon : Option Fixed) → Keeps HasValidDb (init_static_base lat lon)
unfolding init_static_base
Keeps-init_static_base (some lat) (some lon) =
    Keeps-bind _ _ Keeps-time (λ now. Keeps-apply_base_location HasValidDb-IsStable _ _)
Keeps-init_static_base (some lat) none = Keeps-pure tt
Keeps-init_static_base none lon = Keeps-pure tt

module _ (c : Codec) (router : Router) (policy : TimeoutPolicy) (sweeper : RetentionSweeper) where
  pub data Step : World → World → Type 0 where
    rpc :
        (w : World) (topic payload : String) → Step w (handle_one c router policy topic payload w).1
    direct : (w : World) (topic payload : String) → Step w (route_direct c topic payload w).1
    status : (w : World) (topic payload : String) → Step w (maybe_cache c topic payload w).1
    consumed :
        (w : World) (read_event : String → Option GatewayEvent) (topic payload : String)
        → Step w (consume c router policy read_event topic payload w).1
    health : (w : World) (ran : Vcgencmd) (state : String) → Step w (publish_health ran state w).1
    gps :
        (w : World) (interval : Fixed) (st : BasePublisher) (fix : GpsdFix)
        → Step w (on_fix interval st fix w).1
    static_base : (w : World) (lat lon : Option Fixed) → Step w (init_static_base lat lon w).1
    sweep : (w : World) → Step w (run_once sweeper w).1
    environment :
        (w : World) (clock : Fixed) (connected : Bool) (script : List Outcome)
        → Step w (record w { clock = clock; connected = connected; script = script })

  pub data Reach (w : World) : World → Type 0 where
    here : Reach w w
    next : {u v : World} → Reach w u → Step u v → Reach w v

module _ (c : Codec) (p : Platform) (router : Router) (policy : TimeoutPolicy)
    (sweeper : RetentionSweeper) (made : Router.make (default_handlers p) ≡ some router) where
  Keeps-on_envelope :
      (o : Option Request) (e : Option Response) → Keeps HasValidDb (on_envelope router policy o e)
  unfolding on_envelope
  Keeps-on_envelope none e = Keeps-emit_adapter_error e
  Keeps-on_envelope (some request) e =
      process_request-HasValidDb emit Keeps-emit_valid (default_handlers p)
        (default_handlers-Keeps HasValidDb-IsStable p) router made request policy

  Step-HasValidDb : {w v : World} → Step c router policy sweeper w v → HasValidDb w → HasValidDb v
  unfolding handle_one consume
  Step-HasValidDb (rpc w topic payload) h = (Keeps-on_envelope _ _).at w h
  Step-HasValidDb (direct w topic payload) h =
      (Keeps-route_direct HasValidDb-IsStable (λ u s v. v) c topic payload).at w h
  Step-HasValidDb (consumed w read_event topic payload) h =
      (Keeps-if (topic == Topics.rpc_request) _ _ (Keeps-on_envelope _ _) (
          Keeps-if (is_routed topic) _ _
            (Keeps-bind _ _
              (Keeps-attempt _
                (Keeps-route_event HasValidDb-IsStable (λ u s v. v) c read_event topic payload))
              (λ _. Keeps-pure tt))
            (Keeps-pure tt))).at
        w h
  Step-HasValidDb (health w ran state) h =
      (Keeps-publish_health HasValidDb-IsStable (λ u s v. v) ran state).at w h
  Step-HasValidDb (status w topic payload) h =
      (Keeps-maybe_cache HasValidDb-IsStable (λ u s v. v) c topic payload).at w h
  Step-HasValidDb (gps w interval st fix) h = (Keeps-on_fix interval st fix).at w h
  Step-HasValidDb (static_base w lat lon) h = (Keeps-init_static_base lat lon).at w h
  Step-HasValidDb (sweep w) h = (Keeps-run_once sweeper).at w h
  Step-HasValidDb (environment w clock connected script) h = h

  -- Whatever messages arrive, whatever fails and however long it takes, a service with the default
  -- handlers that starts from valid tables has valid tables.
  pub Reach-HasValidDb :
      {w v : World} → HasValidDb w → Reach c router policy sweeper w v → HasValidDb v
  Reach-HasValidDb h here = h
  Reach-HasValidDb h (next r s) = Step-HasValidDb s (Reach-HasValidDb h r)

  -- In every state of a service with the default handlers that starts from valid tables, the stored
  -- counts of pending, succeeded and failed requests add up to the stored requests, and the count of
  -- timeouts, which `gateway.status` reports beside them, is 0.
  pub Reach-counts :
      {w v : World}
      → HasValidDb w
      → Reach c router policy sweeper w v
      → (count_of "pending" (counts v.db)
            + count_of Lifecycle.completed_ok (counts v.db)
            + count_of Lifecycle.completed_error (counts v.db)
          ≡ length v.db.requests)
        × (count_of Lifecycle.timeout (counts v.db) ≡ 0)
  Reach-counts {v} h r =
      let valid = Reach-HasValidDb h r in (counts_total v.db valid, counts-timeout v.db valid)
