-- ===== src/Transport/Service/Lifetime.antt =====
-- meshcore_rpc_services/transport/service.py: `Service.run`, with the connection of transport/bus.py. The
-- tasks of requests run beside it in any order. What the sweeper, the heartbeat and the GPS client do
-- are steps of their own.
pub mod Idling
pub mod Stopping
pub mod Poisoned
use meshcore_rpc_services.Prelude.{ℕ, Bool, true, false, Option, none, some, List, [], ◌∷◌, String}
use meshcore_rpc_services.Config.{BaseLocationConfig, init_base_location}
use meshcore_rpc_services.Prelude.Int.{Fixed}
use meshcore_rpc_services.Router.{Router}
use meshcore_rpc_services.Runtime.{
  World, Exn, Result, ok, err, M, pure, raise, attempt, finally, modify, perform, ◌>>=◌, ◌>>◌,
}
use meshcore_rpc_services.Runtime.Calls.{write, publish}
use meshcore_rpc_services.Store.Rows.{Db}
use meshcore_rpc_services.Timeouts.Policy.{TimeoutPolicy}
use meshcore_rpc_services.Topics
use meshcore_rpc_services.Transport.Adapter.{Codec}
use meshcore_rpc_services.Transport.Bus.{maybe_cache}
use meshcore_rpc_services.Transport.Service.Events.{Vcgencmd, GatewayEvent, publish_health, consume}
use meshcore_rpc_services.Value.{Json}

-- `try: m finally: n`: an exception of the last part takes the place of what came before.
abbrev pub superseded : {A : Type 0} → Result Unit → Result A → Result A
superseded (ok u) r = r
superseded (err e) r = err e

unfoldable pub finally_do : {A : Type 0} → M A → M Unit → M A
finally_do m n w = let (r, w') = m w in let (s, v) = n w' in (superseded s r, v)

abbrev pub set_connected : World → World
set_connected w = record w { connected = true }

abbrev pub disconnected : World → World
disconnected w = record w { connected = false }

-- The topics that `MqttBus.connect` subscribes to.
unfoldable pub subscriptions : List String
subscriptions =
    Topics.gateway_status
    ∷ Topics.rpc_request
    ∷ Topics.gateway_native_direct_msg_filter Topics.gateway_native_prefix
    ∷ Topics.gateway_native_battery Topics.gateway_native_prefix
    ∷ Topics.gateway_native_telemetry Topics.gateway_native_prefix
    ∷ Topics.gateway_native_advertisement Topics.gateway_native_prefix
    ∷ []

-- An awaited call of the broker's client.
abbrev pub call_client : M Unit
call_client = perform (λ w. (tt, w))

abbrev pub subscribe_all : List String → M Unit
subscribe_all [] = pure tt
subscribe_all (topic ∷ topics) = call_client >> subscribe_all topics

-- `async with self._bus.connect(): body`
unfoldable pub connect : M Unit → M Unit
unfolding subscriptions
connect body = do
  call_client
  modify set_connected
  subscribe_all subscriptions
  finally body disconnected

-- What the task of a request does from one await to the next: a statement of the store, a message, or
-- a change of the number of requests in flight.
pub data Piece : Type 0 where
  stored : (Fixed → Db → Db) → Piece
  emitted : String → Json → Bool → Piece
  counted : ℕ → Piece

unfoldable pub run_piece : Piece → M Unit
run_piece (stored statement) = write statement
run_piece (emitted topic payload retain) = publish topic payload retain
run_piece (counted n) = modify (λ w. record w { in_flight = n })

-- The tasks go on, each piece in its turn; an exception in one ends no other.
unfoldable pub go_on : List Piece → M Unit
unfolding run_piece
go_on [] = pure tt
go_on (piece ∷ rest) = do attempt (run_piece piece); go_on rest

-- What the tasks of requests still do when the consume loop has ended: before "stopped" is published,
-- then before the connection is closed, and then while `run` waits for them.
pub record InFlight : Type 0 where
  pub before_stopped : List Piece
  pub before_closed : List Piece
  pub awaited : List Piece

-- A turn of the loop: a message, or what tasks of requests do while it waits for one.
pub data Turn : Type 0 where
  incoming : String → String → Turn
  meanwhile : List Piece → Turn

-- The turns in order, and the exception that ends the loop, if one does.
pub record Received : Type 0 where
  pub turns : List Turn
  pub ended : Option Exn

abbrev pub left : Option Exn → M Unit
left none = pure tt
left (some e) = raise e

-- The `finally` part within the connection, without the tasks that it ends.
unfoldable pub say_stopped : Vcgencmd → InFlight → M Unit
unfolding go_on
say_stopped ran in_flight = do
  go_on in_flight.before_stopped
  attempt (publish_health ran "stopped")
  go_on in_flight.before_closed

module _ (c : Codec) (router : Router) (policy : TimeoutPolicy)
    (read_event : String → Option GatewayEvent) where
  -- `MqttBus.messages` and the body of `_consume_loop`. The task of a request is run here if no other
  -- runs beside it, and is a matter of `meanwhile` and of what is in flight at the end otherwise. Its
  -- exception does not reach the loop.
  unfoldable pub consume_all : List Turn → M Unit
  unfolding go_on
  consume_all [] = pure tt
  consume_all (incoming topic payload ∷ rest) = do
    maybe_cache c topic payload
    attempt (consume c router policy read_event topic payload)
    consume_all rest
  consume_all (meanwhile pieces ∷ rest) = do go_on pieces; consume_all rest

  unfoldable pub consume_loop : Received → M Unit
  unfolding consume_all
  consume_loop received = consume_all received.turns >> left received.ended

  -- The block within the connection.
  unfoldable pub serve : BaseLocationConfig → Vcgencmd → Vcgencmd → Received → InFlight → M Unit
  unfolding consume_loop finally_do say_stopped
  serve base ran_first ran_last received in_flight = do
    publish_health ran_first "running"
    init_base_location base
    finally_do (consume_loop received) (say_stopped ran_last in_flight)

  -- `run`
  unfoldable pub run : BaseLocationConfig → Vcgencmd → Vcgencmd → Received → InFlight → M Unit
  unfolding serve go_on connect
  run base ran_first ran_last received in_flight =
      finally_do (connect (serve base ran_first ran_last received in_flight))
        (go_on in_flight.awaited)
