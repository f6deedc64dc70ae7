-- ===== src/Tak/Bridge/Looping.antt =====
-- meshcore_rpc_services/tak/bridge.py: the two loops of `Bridge.run`, over what the broker's client gives.
-- They run between each other's awaits; here each is a loop of its own.
use meshcore_rpc_services.Prelude.{Bool, true, false, Option, List, [], ◌∷◌, String, if◌then◌else◌}
use meshcore_rpc_services.Prelude.Int.{Fixed}
use meshcore_rpc_services.Runtime.{Result, ok, err}
use meshcore_rpc_services.Value.{Json}
use meshcore_rpc_services.Tak.Cot.{Writer}
use meshcore_rpc_services.Tak.Bridge.{Bridge, TakBridgeConfig}
use meshcore_rpc_services.Tak.Bridge.Messages.{handle_mqtt_message}
use meshcore_rpc_services.Tak.Bridge.Heartbeat.{heartbeat_round}
use meshcore_rpc_services.Tak.Bridge.Reachable.{Reachable, next, received, beat}

-- A message, its time, and whether `stop` was called when it came.
pub record Arrival : Type 0 where
  pub topic : String
  pub payload : String
  pub now : Fixed
  pub stopped : Bool

-- A connection to the broker: whether connecting and subscribing went through, what arrives, and
-- whether `stop` is called by its end, or in the wait after an error.
pub record Session : Type 0 where
  pub subscribed : Bool
  pub arrivals : List Arrival
  pub stopped : Bool

module _ (writer : Writer) (cfg : TakBridgeConfig) (decode : String → Option Json) where
  abbrev pub go_on_with : Result Unit × Bridge → (Bridge → Bridge) → Bridge
  go_on_with (ok u, b) rest = rest b
  go_on_with (err e, b) rest = b

  -- Whether `stop` was seen, and the bridge.
  abbrev receive_on : Result Unit × Bridge → (Bridge → Bool × Bridge) → Bool × Bridge
  receive_on (ok u, b) rest = rest b
  receive_on (err e, b) rest = (false, b)

  -- The `async for` of a connection: it ends at `stop`, and at the first exception.
  unfoldable pub arrivals_handled : List Arrival → Bridge → Bool × Bridge
  arrivals_handled [] b = (false, b)
  arrivals_handled (a ∷ rest) b =
      let handled = handle_mqtt_message writer cfg decode a.topic a.payload a.now b in
      let after = receive_on handled (arrivals_handled rest) in
      if a.stopped then (true, b) else after

  abbrev pub in_session : Session → Bridge → Bool × Bridge
  in_session s b = if s.subscribed then arrivals_handled s.arrivals b else (false, b)

  -- `_mqtt_loop`
  unfoldable pub mqtt_loop : List Session → Bridge → Bridge
  unfolding arrivals_handled
  mqtt_loop [] b = b
  mqtt_loop (s ∷ sessions) b =
      let ended = in_session s b in
      let after = mqtt_loop sessions ended.1 in
      if ended.0 then ended.1 else if s.stopped then ended.1 else after

  -- `_heartbeat`, with the times of its rounds: the first exception ends it.
  unfoldable pub heartbeat : List Fixed → Bridge → Bridge
  heartbeat [] b = b
  heartbeat (now ∷ times) b = go_on_with (heartbeat_round writer cfg now b) (heartbeat times)

  go_on-Reachable :
      (r : Result Unit) (b : Bridge) (rest : Bridge → Bridge)
      → Reachable writer cfg decode b
      → ((c : Bridge) → Reachable writer cfg decode c → Reachable writer cfg decode (rest c))
      → Reachable writer cfg decode (go_on_with (r, b) rest)
  go_on-Reachable (ok u) b rest h k = k b h
  go_on-Reachable (err e) b rest h k = h

  receive_on-Reachable :
      (r : Result Unit) (b : Bridge) (rest : Bridge → Bool × Bridge)
      → Reachable writer cfg decode b
      → ((c : Bridge) → Reachable writer cfg decode c → Reachable writer cfg decode (rest c).1)
      → Reachable writer cfg decode (receive_on (r, b) rest).1
  receive_on-Reachable (ok u) b rest h k = k b h
  receive_on-Reachable (err e) b rest h k = h

  if-Reachable :
      (c : Bool) (a b : Bridge)
      → Reachable writer cfg decode a
      → Reachable writer cfg decode b
      → Reachable writer cfg decode (if c then a else b)
  if-Reachable true a b ha hb = ha
  if-Reachable false a b ha hb = hb

  choice-Reachable :
      (c : Bool) (a b : Bool × Bridge)
      → Reachable writer cfg decode a.1
      → Reachable writer cfg decode b.1
      → Reachable writer cfg decode (if c then a else b).1
  choice-Reachable true a b ha hb = ha
  choice-Reachable false a b ha hb = hb

  arrivals-Reachable :
      (arrivals : List Arrival) (b : Bridge)
      → Reachable writer cfg decode b
      → Reachable writer cfg decode (arrivals_handled arrivals b).1
  unfolding arrivals_handled
  arrivals-Reachable [] b h = h
  arrivals-Reachable (a ∷ rest) b h =
      let out = handle_mqtt_message writer cfg decode a.topic a.payload a.now b in
      choice-Reachable a.stopped (true, b) (receive_on out (arrivals_handled rest)) h
        (receive_on-Reachable out.0 out.1 _ (next h (received a.topic a.payload a.now b))
          (arrivals-Reachable rest))

  -- The loops stay within the states that the bridge reaches.
  pub mqtt_loop-Reachable :
      (sessions : List Session) (b : Bridge)
      → Reachable writer cfg decode b
      → Reachable writer cfg decode (mqtt_loop sessions b)
  unfolding mqtt_loop
  mqtt_loop-Reachable [] b h = h
  mqtt_loop-Reachable (s ∷ sessions) b h =
      let ended = in_session s b in
      let after =
        choice-Reachable s.subscribed (arrivals_handled s.arrivals b) (false, b)
          (arrivals-Reachable s.arrivals b h) h in
      if-Reachable ended.0 _ _ after
        (if-Reachable s.stopped _ _ after (mqtt_loop-Reachable sessions _ after))

  pub heartbeat-Reachable :
      (times : List Fixed) (b : Bridge)
      → Reachable writer cfg decode b
      → Reachable writer cfg decode (heartbeat times b)
  unfolding heartbeat
  heartbeat-Reachable [] b h = h
  heartbeat-Reachable (now ∷ times) b h =
      let out = heartbeat_round writer cfg now b in
      go_on-Reachable out.0 out.1 _ (next h (beat now b)) (heartbeat-Reachable times)
