-- ===== src/Geo.antt =====
-- meshcore_rpc_services/geo.py, over the floating-point operations of the platform: Python's floats,
-- its `math` module and its text conversions are not part of the repository.
pub mod Symmetry
use meshcore_rpc_services.Prelude.{Option, String}
use meshcore_rpc_services.Prelude.Int.{ℤ, pos, Fixed, of_int}

pub record Platform : Type 1 where
  pub Real : Type 0
  -- The float that a fixed-point number stands for.
  pub real : Fixed → Real
  pub add : Real → Real → Real
  pub sub : Real → Real → Real
  pub mul : Real → Real → Real
  pub div : Real → Real → Real
  -- `x ** y` and `x % y`
  pub pow : Real → Real → Real
  pub rem : Real → Real → Real
  pub radians : Real → Real
  pub degrees : Real → Real
  pub sin : Real → Real
  pub cos : Real → Real
  pub asin : Real → Real
  pub sqrt : Real → Real
  pub atan2 : Real → Real → Real
  -- `int(round(x))`
  pub round : Real → ℤ
  -- `float(s)` of a text; `none` stands for the ValueError.
  pub parse_float : String → Option Fixed
  -- `datetime.fromtimestamp(t, tz=utc).isoformat(timespec="seconds")`, with Z for the offset.
  pub iso_utc : Fixed → String

module _ (p : Platform) where
  open p use {
    Real, real, add, sub, mul, div, pow, rem, radians, degrees, sin, cos, asin, sqrt, atan2,
  }

  abbrev two : Real
  two = real (of_int (pos 2))

  abbrev earth_radius_m : Real
  earth_radius_m = real (of_int (pos 6371000))

  abbrev full_circle : Real
  full_circle = real (of_int (pos 360))

  -- The haversine of the central angle, `a` in the source.
  unfoldable pub half_chord : Real → Real → Real → Real → Real
  half_chord lat1 lon1 lat2 lon2 =
      let p1 = radians lat1 in
      let p2 = radians lat2 in
      let dlat = radians (sub lat2 lat1) in
      let dlon = radians (sub lon2 lon1) in
      add (pow (sin (div dlat two)) two)
        (mul (mul (cos p1) (cos p2)) (pow (sin (div dlon two)) two))

  unfoldable pub haversine_m : Real → Real → Real → Real → Real
  unfolding half_chord
  haversine_m lat1 lon1 lat2 lon2 =
      mul (mul two earth_radius_m) (asin (sqrt (half_chord lat1 lon1 lat2 lon2)))

  unfoldable pub initial_bearing_deg : Real → Real → Real → Real → Real
  initial_bearing_deg lat1 lon1 lat2 lon2 =
      let p1 = radians lat1 in
      let p2 = radians lat2 in
      let dlon = radians (sub lon2 lon1) in
      let y = mul (sin dlon) (cos p2) in
      let x = sub (mul (cos p1) (sin p2)) (mul (mul (sin p1) (cos p2)) (cos dlon)) in
      rem (add (degrees (atan2 y x)) full_circle) full_circle
