-- ===== src/Tracker.antt =====
-- meshcore_rpc_services/timeouts/tracker.py: `PendingTracker`, over `asyncio.wait_for`.
pub mod Rules
use meshcore_rpc_services.Prelude.{ℕ, ◌+◌, ◌-◌, Bool, true, false, if◌then◌else◌}
use meshcore_rpc_services.Prelude.Int.{ℤ, pos, leb_ℤ}
use meshcore_rpc_services.Runtime.{World, M, timeout_error, raise, finally, modify, ◌>>=◌, ◌>>◌}

unfoldable pub inc : World → World
inc w = record w { in_flight = w.in_flight + 1 }

-- `max(0, self._in_flight - 1)`
unfoldable pub dec : World → World
dec w = record w { in_flight = w.in_flight - 1 }

abbrev pub set_armed : Bool → World → World
set_armed b w = record w { armed = b }

-- `asyncio.wait_for`: with no time left nothing is started.
unfoldable pub wait_for : {A : Type 0} → M A → ℤ → M A
wait_for coro timeout =
    if leb_ℤ timeout (pos 0)
    then raise timeout_error
    else finally (modify (set_armed true) >> coro) (set_armed false)

unfoldable pub run_with_timeout : {A : Type 0} → M A → ℤ → M A
unfolding inc dec wait_for
run_with_timeout coro ttl_s = modify inc >> finally (wait_for coro ttl_s) dec
