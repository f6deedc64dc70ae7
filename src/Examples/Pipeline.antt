-- ===== src/Examples/Pipeline.antt =====
-- The theorems on the running service, applied to the example service.
use meshcore_rpc_services.Prelude.{◌++◌, ◌+◌, ◌≡◌, refl, false, length}
use meshcore_rpc_services.Core.{process_request}
use meshcore_rpc_services.Core.Answers.{calm, answer, answered}
use meshcore_rpc_services.Core.Completion.{IsSettled}
use meshcore_rpc_services.Core.Invariant.{HasValidDb}
use meshcore_rpc_services.Core.Recorded.{IsRecorded}
use meshcore_rpc_services.Examples.{
  platform, codec, world, router, router_made, sweeper, ping_request, db-IsValid,
}
use meshcore_rpc_services.Lifecycle
use meshcore_rpc_services.Retention.{run_once}
use meshcore_rpc_services.Runtime.{World}
use meshcore_rpc_services.Runtime.Total.{Returns}
use meshcore_rpc_services.Store.Requests.{count_of}
use meshcore_rpc_services.Store.Requests
use meshcore_rpc_services.Timeouts.Policy.{default_policy, resolve}
use meshcore_rpc_services.Transport.Service.{emit, handle_one}
use meshcore_rpc_services.Transport.Service.Delivery.{sent, carried}
use meshcore_rpc_services.Transport.Service.Responses.{process_request-sends}
use meshcore_rpc_services.Transport.Service.Pipeline.{
  process_request-completes, process_request-balanced, process_request-stores,
}
use meshcore_rpc_services.Transport.Service.Safety.{
  Reach, here, next, rpc, sweep, Reach-HasValidDb, Reach-counts,
}

process_request-stores_example :
    (process_request emit ping_request router default_policy (calm world)).1.db.requests
    ≡ answered ping_request
        (answer ping_request router
          (resolve default_policy ping_request.type ping_request.ttl)
          world)
        world.clock
        (Requests.record_received ping_request
          (resolve default_policy ping_request.type ping_request.ttl)
          world.clock
          world.db).1.requests
process_request-stores_example =
    process_request-stores platform router router_made ping_request default_policy world

process_request-sends_example :
    sent (process_request emit ping_request router default_policy (calm world)).1
    ≡ sent world
      ++ carried ping_request.from_
          (answer ping_request router
            (resolve default_policy ping_request.type ping_request.ttl)
            world).response
          world.connected
process_request-sends_example =
    process_request-sends platform router router_made ping_request default_policy world

process_request-completes_example :
    Returns (process_request emit ping_request router default_policy world).0
    × IsRecorded ping_request (process_request emit ping_request router default_policy world).1
    × IsSettled ping_request (process_request emit ping_request router default_policy world).1
process_request-completes_example =
    process_request-completes platform router router_made ping_request default_policy world
      ((refl, (refl, (refl, (refl, (refl, (refl, tt)))))), refl)

process_request-balanced_example :
    ((process_request emit ping_request router default_policy world).1.in_flight ≡ world.in_flight)
    × ((process_request emit ping_request router default_policy world).1.armed ≡ false)
process_request-balanced_example =
    process_request-balanced platform router router_made ping_request default_policy world refl

-- The service after a request and a sweep.
abbrev handled : World
handled = (handle_one codec router default_policy "mc/rpc/req" "ping" world).1

abbrev swept : World
swept = (run_once sweeper handled).1

reached : Reach codec router default_policy sweeper world swept
reached = next (next here (rpc world "mc/rpc/req" "ping")) (sweep handled)

Reach-HasValidDb_example : HasValidDb swept
Reach-HasValidDb_example =
    Reach-HasValidDb codec platform router default_policy sweeper router_made db-IsValid reached

Reach-counts_example :
    (count_of "pending" (Requests.counts swept.db)
        + count_of Lifecycle.completed_ok (Requests.counts swept.db)
        + count_of Lifecycle.completed_error (Requests.counts swept.db)
      ≡ length swept.db.requests)
    × (count_of Lifecycle.timeout (Requests.counts swept.db) ≡ 0)
Reach-counts_example =
    Reach-counts codec platform router default_policy sweeper router_made db-IsValid reached
