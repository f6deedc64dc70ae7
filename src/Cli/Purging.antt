-- ===== src/Cli/Purging.antt =====
-- The command that purges old requests.
use meshcore_rpc_services.Prelude.{
  ℕ, suc, ◌+◌, ◌*◌, ◌≡◌, refl, ap, Option, some, List, ◌∷◌, String, length, count, arith,
}
use meshcore_rpc_services.Prelude.Int.{ℤ, pos, Fixed, of_int, ◌-ℤ◌}
use meshcore_rpc_services.Cli.{
  say, purged, effective_days, loaded, opened, purge, sweep, or_failed, with_config, with_store,
}
use meshcore_rpc_services.Config.App.{AppConfig}
use meshcore_rpc_services.Core.Answers.{calm}
use meshcore_rpc_services.Retention.{make_sweeper, run_once, seconds_per_day}
use meshcore_rpc_services.Runtime.{
  World, Outcome as Ending, fault, ok, pure, gets, attempt, or_raise, time, perform, step, ◌>>=◌,
}
use meshcore_rpc_services.Runtime.Calls.{purge_before}
use meshcore_rpc_services.Store.Invariant.{IsValid}
use meshcore_rpc_services.Store.Retention
use meshcore_rpc_services.Store.Purging.{purge_before-counts}
use meshcore_rpc_services.Store.Requests.{is_pending}

-- The cutoff of a sweep now.
abbrev pub cutoff_of : ℕ → Fixed → Fixed
cutoff_of days now = now -ℤ of_int (pos (days * seconds_per_day))

made :
    (d : ℕ)
    → make_sweeper (pos (suc d)) (of_int (pos 3600))
      ≡ some (record { days = suc d; interval_s = of_int (pos 3600) })
unfolding make_sweeper of_int
made d = ground arith

swept :
    (d : ℕ) (w : World)
    → sweep (pos (suc d)) (calm w) ≡ (
        let (n, db) = Retention.purge_before (cutoff_of (suc d) w.clock) w.db in
        (ok (say (purged n (pos (suc d)))), record (calm w) { db = db }))
unfolding sweep run_once ◌>>=◌ or_raise pure time gets attempt purge_before perform step
swept d w = rw (made d) refl

faulted :
    (d : ℕ) (t : Fixed) (name : String) (rest : List Ending) (w : World)
    → let v = record w { script = fault t name ∷ rest } in
      ((sweep (pos (suc d)) v).0 ≡ ok (say (purged 0 (pos (suc d)))))
      × ((sweep (pos (suc d)) v).1.db ≡ w.db)
unfolding sweep run_once ◌>>=◌ or_raise pure time gets attempt purge_before perform step
faulted d t name rest w = rw (made d) (refl, refl)

module _ (repr : String → String) (path : Option String) (days : Option ℤ) (cfg : AppConfig) (d : ℕ)
    (w : World) (positive : effective_days days cfg ≡ pos (suc d)) where
  -- The command on a loaded configuration and an opened store.
  started :
      (v : World)
      → purge repr path days (loaded cfg) opened v
        ≡ (attempt (sweep (pos (suc d))) >>= λ r. pure (or_failed r)) v
  unfolding purge with_config with_store
  started v = rw positive refl

  -- With a number of days of at least one, on a valid database, and where the sweep is performed at
  -- once, the command prints the number of rows that it took out of the table of requests, and ends
  -- normally; the pending requests are all still there.
  pub purge-counts :
      IsValid w.db
      → (n : ℕ) × ((purge repr path days (loaded cfg) opened (calm w)).0
          ≡ ok (say (purged n (pos (suc d)))))
        × (n + length (purge repr path days (loaded cfg) opened (calm w)).1.db.requests
            ≡ length w.db.requests)
        × (count is_pending (purge repr path days (loaded cfg) opened (calm w)).1.db.requests
            ≡ count is_pending w.db.requests)
  unfolding ◌>>=◌ attempt pure
  purge-counts valid =
      let (total, pending) = purge_before-counts (cutoff_of (suc d) w.clock) w.db valid in
      rw (started (calm w)) (rw (swept d w) (_, refl, total, pending))

  -- Where the sweep fails, the command deletes nothing, says so as of a successful sweep, and ends
  -- normally.
  pub purge-faulted :
      (t : Fixed) (name : String) (rest : List Ending)
      → let v = record w { script = fault t name ∷ rest } in
        ((purge repr path days (loaded cfg) opened v).0 ≡ ok (say (purged 0 (pos (suc d)))))
        × ((purge repr path days (loaded cfg) opened v).1.db ≡ w.db)
  unfolding ◌>>=◌ attempt pure
  purge-faulted t name rest =
      let v = record w { script = fault t name ∷ rest } in
      let (said, same) = faulted d t name rest w in
      rw (started v) (ap (λ r. ok (or_failed r)) said, same)
