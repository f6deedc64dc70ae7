-- ===== src/State/Online.antt =====
-- What a node's state says of the time since it was seen.
use meshcore_rpc_services.Prelude.{◌≡◌, arith}
use meshcore_rpc_services.Prelude.Int.{Fixed, of_int, age_of, ltb_ℤ, ◌-ℤ◌}
use meshcore_rpc_services.State.{is_online, online_threshold_s}

-- A node is online exactly when its reported age is under the threshold, also when the clock was set
-- back.
pub is_online-age_of :
    (now last_seen : Fixed)
    → is_online now last_seen ≡ ltb_ℤ (age_of now last_seen) online_threshold_s
unfolding age_of of_int ◌-ℤ◌
is_online-age_of now last_seen = ground arith
