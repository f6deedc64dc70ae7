-- ===== src/Scripts/SeedStatus.antt =====
-- scripts/seed_gateway_status.py: a retained status of the gateway.
use meshcore_rpc_services.Prelude.{◌≡◌, refl, false, Option, none, some, [], ◌∷◌, String, ◌==◌}
use meshcore_rpc_services.Prelude.Int.{Fixed}
use meshcore_rpc_services.Prelude.Dict.{lookup}
use meshcore_rpc_services.Core.Answers.{calm}
use meshcore_rpc_services.Runtime.{World, pure, gets, modify, attempt, time, perform, step, ◌>>=◌}
use meshcore_rpc_services.Runtime.Calls.{record_gateway_snapshot, write}
use meshcore_rpc_services.Transport.Adapter.{Codec}
use meshcore_rpc_services.Transport.Bus.{cache_status, cache_decoded, maybe_cache}
use meshcore_rpc_services.Value.{Json, str, float, obj, of_entries, opt_str}

abbrev pub gateway_status : String
gateway_status = "mc/gateway/status"

-- The payload that `main` publishes.
unfoldable pub seeded : String → Option String → Fixed → Json
seeded state detail now = obj (
    of_entries (
      ("state", str state)
      ∷ ("detail", opt_str detail)
      ∷ ("ts", float now)
      ∷ ("since", float now)
      ∷ []))

-- The bus caches the seeded status as it is, at the time at which it arrives.
cached :
    (state : String) (detail : Option String) (now : Fixed) (w : World)
    → (cache_decoded (some (seeded state detail now)) (calm w)).1.gateway ≡ record {
      state = str state;
      detail = opt_str detail;
      since = float now;
      snapped_at = some w.clock;
    }
unfolding cache_decoded cache_status time gets modify attempt pure ◌>>=◌ record_gateway_snapshot
    write perform step seeded lookup
cached state none now w = refl
cached state (some detail) now w = refl

pub maybe_cache-seeded :
    (c : Codec) (state raw : String) (detail : Option String) (now : Fixed) (w : World)
    → (raw == "") ≡ false
    → c.loads raw ≡ some (seeded state detail now)
    → (maybe_cache c gateway_status raw (calm w)).1.gateway ≡ record {
      state = str state;
      detail = opt_str detail;
      since = float now;
      snapped_at = some w.clock;
    }
unfolding maybe_cache
maybe_cache-seeded c state raw detail now w named loaded =
    rw (named, loaded) (cached state detail now w)
