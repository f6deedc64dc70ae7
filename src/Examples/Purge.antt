-- ===== src/Examples/Purge.antt =====
-- The theorems on the command `purge`, applied to the default configuration and the example database.
use meshcore_rpc_services.Prelude.{ℕ, ◌≡◌, refl, none, some, [], ◌∷◌, length, count, ◌+◌}
use meshcore_rpc_services.Prelude.Int.{pos}
use meshcore_rpc_services.Cli.{say, purged, loaded, opened, purge}
use meshcore_rpc_services.Cli.Purging.{purge-counts, purge-faulted}
use meshcore_rpc_services.Config.App.{default_app}
use meshcore_rpc_services.Core.Answers.{calm}
use meshcore_rpc_services.Examples.{world, db, db-IsValid}
use meshcore_rpc_services.Runtime.{World, fault, ok}
use meshcore_rpc_services.Store.Requests.{is_pending}

-- The example service, on a database with rows.
abbrev filled : World
filled = record world { db = db }

purge-counts_example :
    (n : ℕ) × ((purge (λ s. s) none (some (pos 30)) (loaded default_app) opened (calm filled)).0
      ≡ ok (say (purged n (pos 30))))
    × (n
          + length
              (purge
                (λ s. s)
                none
                (some (pos 30))
                (loaded default_app)
                opened
                (calm filled)).1.db.requests
        ≡ length db.requests)
    × (count is_pending
          (purge
            (λ s. s)
            none
            (some (pos 30))
            (loaded default_app)
            opened
            (calm filled)).1.db.requests
        ≡ count is_pending db.requests)
purge-counts_example =
    purge-counts (λ s. s) none (some (pos 30)) default_app 29 filled refl db-IsValid

purge-faulted_example :
    let v = record filled { script = fault (pos 1) "OperationalError" ∷ [] } in
    ((purge (λ s. s) none none (loaded default_app) opened v).0 ≡ ok (say (purged 0 (pos 30))))
    × ((purge (λ s. s) none none (loaded default_app) opened v).1.db ≡ db)
purge-faulted_example =
    purge-faulted (λ s. s) none none default_app 29 filled refl (pos 1) "OperationalError" []
