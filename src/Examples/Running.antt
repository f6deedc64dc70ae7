-- ===== src/Examples/Running.antt =====
-- The theorems on whole exchanges and on the service from its start to its end, applied to the example
-- service.
use meshcore_rpc_services.Prelude.{
  ◌≡◌, refl, true, false, none, some, List, [], ◌∷◌, All, ◌++◌, ◌==◌, if◌then◌else◌,
}
use meshcore_rpc_services.Prelude.Int.{pos}
use meshcore_rpc_services.Config.{default_base}
use meshcore_rpc_services.Core.Answers.{calm}
use meshcore_rpc_services.Core.{process_request}
use meshcore_rpc_services.Examples.{
  platform, codec, world, router, router_made, ping_request, ping_json,
}
use meshcore_rpc_services.Gpsd.Session.{line, closed, Round, run}
use meshcore_rpc_services.Runtime.{World, Message, err, crash, fault, late}
use meshcore_rpc_services.Timeouts.Policy.{default_policy}
use meshcore_rpc_services.Topics
use meshcore_rpc_services.Transport.Adapter.{Codec}
use meshcore_rpc_services.Transport.Service.{emit}
use meshcore_rpc_services.Transport.Service.Replying.{IsAnswer, process_request-IsAnswer}
use meshcore_rpc_services.Transport.Service.Base.{on_fix, first_publisher, stored_base}
use meshcore_rpc_services.Transport.Service.Base.Applying.{base_after, announced, due_fixes}
use meshcore_rpc_services.Transport.Service.Base.Hearing.{heard_over}
use meshcore_rpc_services.Transport.Service.Base.Listening.{run-due_fixes}
use meshcore_rpc_services.Transport.Service.Events.{output, raised}
use meshcore_rpc_services.Transport.Service.Lifetime
use meshcore_rpc_services.Transport.Service.Lifetime.{
  Received, InFlight, counted, emitted, incoming, meanwhile, connect, serve,
}
use meshcore_rpc_services.Transport.Service.Lifetime.Stopping.{IsStopped, run-IsStopped}
use meshcore_rpc_services.Transport.Service.Lifetime.Poisoned.{ended_by, no_get, run-poisoned}
use meshcore_rpc_services.Value.{Json, int, float, str, arr, nil, obj, field, end}

-- The daemon reports a position and closes the connection, and does so again.
abbrev report : Json
report = obj (
    field "class" (str "TPV") (
      field "mode" (int (pos 3))
        (field "lat" (float (pos 52000000)) (field "lon" (float (pos 4000000)) end))))

abbrev daemon : Codec
daemon = record codec { loads = λ s. if s == "tpv" then some report else none }

abbrev round : Round
round = record {
  connection = record {
    setup = pos 10;
    is_open = true;
    reads = line (pos 5) "tpv" ∷ line (pos 5) "?" ∷ closed (pos 1) ∷ [];
  };
  stopped = false;
  stopped_waiting = false;
}

abbrev online : World
online = record world { script = [] }

run-due_fixes_example :
    let heard = heard_over daemon none 0 online.clock (round ∷ round ∷ []) in
    let fixes = due_fixes (pos 30000000) true first_publisher heard in
    let v =
      (run daemon none (on_fix (pos 30000000)) (round ∷ round ∷ []) 0 first_publisher online).1 in
    (stored_base v ≡ base_after (stored_base online) fixes)
    × (v.published ≡ online.published ++ announced true fixes)
run-due_fixes_example =
    run-due_fixes daemon none (pos 30000000) true (round ∷ round ∷ []) 0 first_publisher online
      (record { idle = refl; online = refl; shows = refl })

-- The insertion fails, and the time of a statement after it runs out.
abbrev failing : World
failing = record world { script = fault (pos 1) "OperationalError" ∷ late (pos 2) ∷ [] }

process_request-IsAnswer_example :
    (added : List Message) × ((process_request emit ping_request router default_policy
        failing).1.published
      ≡ failing.published ++ added)
    × All (IsAnswer ping_request) added
process_request-IsAnswer_example =
    process_request-IsAnswer platform router router_made ping_request default_policy failing

abbrev received : Received
received = record {
  turns = incoming Topics.rpc_request "ping" ∷ [];
  ended = some (crash "MqttError");
}

-- One request is answered after "stopped", and another only when the connection is closed.
abbrev answering : InFlight
answering = record {
  before_stopped = counted 2 ∷ [];
  before_closed = emitted "mc/rpc/response/n1" ping_json false ∷ counted 1 ∷ [];
  awaited = emitted "mc/rpc/response/n2" ping_json false ∷ counted 0 ∷ [];
}

run-IsStopped_example :
    let body =
      serve codec router default_policy
        (λ s. none)
        default_base
        raised
        (output "throttled=0x0")
        received
        answering in
    let u = (connect body (calm world)).1 in
    let v =
      (Lifetime.run codec router default_policy
        (λ s. none)
        default_base
        raised
        (output "throttled=0x0")
        received
        answering
        (calm world)).1 in
    IsStopped (output "throttled=0x0") answering.before_closed u
    × (v.connected ≡ false)
    × (v.published ≡ u.published)
run-IsStopped_example =
    run-IsStopped codec platform router default_policy (λ s. none) router_made default_base raised
      (output "throttled=0x0") received answering world

-- The status is an empty array.
abbrev gateway : Codec
gateway = record codec { loads = λ s. if s == "[]" then some (arr nil) else codec.loads s }

abbrev poisoned : Received
poisoned = record {
  turns =
      incoming Topics.gateway_status "[]"
      ∷ meanwhile (counted 0 ∷ [])
      ∷ incoming Topics.rpc_request "ping"
      ∷ [];
  ended = none;
}

run-poisoned_example :
    (Lifetime.run gateway router default_policy
        (λ s. none)
        default_base
        raised
        raised
        poisoned
        answering
      ≡ Lifetime.run gateway router default_policy
          (λ s. none)
          default_base
          raised
          raised
          (ended_by no_get)
          answering)
    × ((Lifetime.run gateway router default_policy
          (λ s. none)
          default_base
          raised
          raised
          poisoned
          answering
          (calm world)).0
        ≡ err no_get)
run-poisoned_example =
    run-poisoned gateway router default_policy (λ s. none) default_base raised raised answering "[]"
      (arr nil) (meanwhile (counted 0 ∷ []) ∷ incoming Topics.rpc_request "ping" ∷ []) none world
      refl refl refl
