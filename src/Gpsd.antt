-- ===== src/Gpsd.antt =====
-- meshcore_rpc_services/gpsd.py: what the client of the GPS daemon makes of a line that it reads.
-- The connection is asyncio's.
pub mod Usable
pub mod Session
use meshcore_rpc_services.Prelude.{
  Bool, true, false, ◌||◌, Option, none, some, List, [], ◌∷◌, String, ◌==◌, if◌then◌else◌,
}
use meshcore_rpc_services.Prelude.Int.{ℤ, pos, Fixed, of_int, trunc, eqb_ℤ, ltb_ℤ, max_ℤ}
use meshcore_rpc_services.Prelude.Dict.{Dict, lookup}
use meshcore_rpc_services.Transport.Adapter.{Codec}
use meshcore_rpc_services.Value.{Json, obj, entries, number?, text?}

pub record GpsdFix : Type 0 where
  pub lat : Fixed
  pub lon : Fixed
  pub ts : Fixed
  pub alt : Option Fixed
  pub acc : Option Fixed
  pub spd : Option Fixed
  pub hdg : Option Fixed
  pub fix : Option ℤ

-- `mode in (2, 3)`, by Python's equality of numbers.
abbrev pub has_position : Fixed → Bool
unfolding of_int
has_position mode = eqb_ℤ mode (of_int (pos 2)) || eqb_ℤ mode (of_int (pos 3))

-- The worse of the two errors, or the one that is there.
abbrev pub worse : Option Fixed → Option Fixed → Option Fixed
worse (some epx) (some epy) = some (max_ℤ epx epy)
worse (some epx) none = some epx
worse none epy = epy

abbrev pub located : Dict Json → Fixed → Fixed → Option Fixed → Option Fixed → Option GpsdFix
located msg now mode (some lat) (some lon) = some (record {
  lat = lat;
  lon = lon;
  ts = now;
  alt = number? (lookup "alt" msg);
  acc = worse (number? (lookup "epx" msg)) (number? (lookup "epy" msg));
  spd = number? (lookup "speed" msg);
  hdg = number? (lookup "track" msg);
  fix = some (trunc mode);
})
located msg now mode _ _ = none

abbrev pub by_mode : Dict Json → Fixed → Option Fixed → Option GpsdFix
by_mode msg now none = none
by_mode msg now (some mode) =
    if has_position mode
    then located msg now mode (number? (lookup "lat" msg)) (number? (lookup "lon" msg))
    else none

-- `_parse_tpv`, at a given time.
unfoldable pub parse_tpv : Dict Json → Fixed → Option GpsdFix
unfolding has_position
parse_tpv msg now = by_mode msg now (number? (lookup "mode" msg))

-- `fix.acc > self._max_acc_m`, where both are set.
abbrev pub too_coarse : Option Fixed → Option Fixed → Bool
too_coarse (some max_acc_m) (some acc) = ltb_ℤ max_acc_m acc
too_coarse _ _ = false

abbrev pub fine_enough : Option Fixed → Option GpsdFix → Option GpsdFix
fine_enough max_acc_m none = none
fine_enough max_acc_m (some fix) = if too_coarse max_acc_m fix.acc then none else some fix

abbrev pub of_class : Option Fixed → Dict Json → Fixed → Option String → Option GpsdFix
of_class max_acc_m msg now none = none
of_class max_acc_m msg now (some class) =
    if class == "TPV" then fine_enough max_acc_m (parse_tpv msg now) else none

-- The fix that one line of `_session` hands to `on_fix`, if it does.
unfoldable pub usable : Option Fixed → Option Json → Fixed → Option GpsdFix
usable max_acc_m (some (obj fs)) now =
    let msg = entries fs in of_class max_acc_m msg now (text? (lookup "class" msg))
usable max_acc_m _ now = none
