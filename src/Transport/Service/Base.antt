-- ===== src/Transport/Service/Base.antt =====
-- The base location of meshcore_rpc_services/transport/service.py: from the configuration, and from
-- the fixes of the GPS daemon.
pub mod Applying
pub mod Hearing
pub mod Listening
use meshcore_rpc_services.Prelude.{
  ◌≡◌, refl, Bool, true, not, ◌&&◌, ◌||◌, Option, none, some, String, Bool-cases, inl, inr,
  if◌then◌else◌, ap, ◌∙◌, eq_refl, arith,
}
use meshcore_rpc_services.Prelude.Int.{pos, Fixed, ◌-ℤ◌, abs_ℤ, ltb_ℤ, leb_ℤ}
use meshcore_rpc_services.Prelude.Dict.{Dict, lookup-insert}
use meshcore_rpc_services.Gpsd.{GpsdFix}
use meshcore_rpc_services.Runtime.{
  World, Result, ok, err, M, pure, gets, continue, time, perform, step, ◌>>=◌, ◌>>◌,
}
use meshcore_rpc_services.Runtime.Calls
use meshcore_rpc_services.Runtime.Calls.{write, publish, send}
use meshcore_rpc_services.Core.Answers.{calm}
use meshcore_rpc_services.Runtime.Keeps.{
  Keeps, Keeps-bind, Keeps-gets, Keeps-if, Keeps-perform, Keeps-raise,
}
use meshcore_rpc_services.State.{apply_base_location, base_entries}
use meshcore_rpc_services.Store.Nodes
use meshcore_rpc_services.Store.Rows.{LocationFix, Db}
use meshcore_rpc_services.Value.{Json}

-- The variables of `_init_gpsd_base` that `on_fix` closes over.
pub record BasePublisher : Type 0 where
  pub last_publish : Fixed
  pub last_pos : Option (Fixed × Fixed)

abbrev pub first_publisher : BasePublisher
first_publisher = record { last_publish = pos 0; last_pos = none }

-- 4.5e-5 degrees, about five metres
abbrev pub move_threshold : Fixed
move_threshold = pos 45

unfoldable pub moved : Option (Fixed × Fixed) → GpsdFix → Bool
moved none fix = true
moved (some (lat, lon)) fix =
    ltb_ℤ move_threshold (abs_ℤ (fix.lat -ℤ lat)) || ltb_ℤ move_threshold (abs_ℤ (fix.lon -ℤ lon))

abbrev pub location_of : GpsdFix → LocationFix
location_of fix = record {
  lat = fix.lat;
  lon = fix.lon;
  ts = fix.ts;
  alt = fix.alt;
  acc = fix.acc;
  fix = fix.fix;
  spd = fix.spd;
  hdg = fix.hdg;
}

-- What follows the test: the publisher's variables change after the location was applied.
unfoldable pub publish_fix : GpsdFix → Fixed → M BasePublisher
publish_fix fix now = do
  apply_base_location (location_of fix) "gpsd"
  pure (record { last_publish = now; last_pos = some (fix.lat, fix.lon) })

-- `on_fix`, with the variables after it.
unfoldable pub on_fix : Fixed → BasePublisher → GpsdFix → M BasePublisher
unfolding moved publish_fix
on_fix publish_interval_s st fix = do
  now ← time
  if not (moved st.last_pos fix) && not (leb_ℤ publish_interval_s (now -ℤ st.last_publish))
      then pure st
      else publish_fix fix now

-- `_init_static_base`
unfoldable pub init_static_base : Option Fixed → Option Fixed → M Unit
init_static_base (some lat) (some lon) = do
  now ← time
  apply_base_location
      (record {
        lat = lat;
        lon = lon;
        ts = now;
        alt = none;
        acc = none;
        fix = some (pos 3);
        spd = none;
        hdg = none;
      })
      "static"
init_static_base _ _ = pure tt

-- The stored base location.
abbrev pub stored_base : World → Option (Dict Json)
stored_base w = Nodes.get_base_state "location" w.db

Keeps-publish_base :
    (entries : Option (Dict Json)) (topic : String) (payload : Json) (retain : Bool)
    → Keeps (λ w. stored_base w ≡ entries) (publish topic payload retain)
unfolding publish send
Keeps-publish_base entries topic payload retain = Keeps-bind _ _ (Keeps-gets _) (λ connected.
    Keeps-if connected _ _ (Keeps-perform _ (λ w t o rest e h. h) (λ w h. h)) (Keeps-raise _))

pub get_base_state-upsert_base_state :
    (key : String) (value : Dict Json) (now : Fixed) (db : Db)
    → Nodes.get_base_state key (Nodes.upsert_base_state key value now db) ≡ some value
unfolding Nodes.get_base_state Nodes.upsert_base_state
get_base_state-upsert_base_state key value now db =
    rw (lookup-insert key key (record { value_json = value; ts = now }) db.base_state, eq_refl key)
      refl

apply_stored :
    (fix : LocationFix) (source : String) (w : World)
    → stored_base (apply_base_location fix source (calm w)).1 ≡ some (base_entries fix source)
unfolding apply_base_location ◌>>=◌ write perform step Calls.upsert_base_state
apply_stored fix source w =
    (Keeps-publish_base (some (base_entries fix source)) _ _ true).at _
      (get_base_state-upsert_base_state "location" (base_entries fix source) w.clock w.db)

continue-pure :
    {A B : Type 0} (r : Result A) (b : B) (w : World) → (continue r (λ _. pure b) w).1 ≡ w
unfolding pure
continue-pure (ok a) b w = refl
continue-pure (err e) b w = refl

publish_stored :
    (fix : GpsdFix) (now : Fixed) (w : World)
    → stored_base (publish_fix fix now (calm w)).1 ≡ some (base_entries (location_of fix) "gpsd")
unfolding publish_fix ◌>>=◌
publish_stored fix now w =
    let (r, w') = apply_base_location (location_of fix) "gpsd" (calm w) in
    ap stored_base (continue-pure r _ w') ∙ apply_stored (location_of fix) "gpsd" w

abbrev pub is_due : Fixed → BasePublisher → GpsdFix → World → Bool
is_due publish_interval_s st fix w =
    moved st.last_pos fix || leb_ℤ publish_interval_s (w.clock -ℤ st.last_publish)

pub due_if : (a b : Bool) → (not a && not b) ≡ not (a || b)
due_if a b = ground arith

-- Where the awaited calls are performed at once, a fix from the GPS daemon becomes the stored base
-- location exactly when it has moved or the publishing interval has passed, also when it cannot be
-- published; otherwise the stored location stays as it is.
pub on_fix-stored_base :
    (publish_interval_s : Fixed) (st : BasePublisher) (fix : GpsdFix) (w : World)
    → stored_base (on_fix publish_interval_s st fix (calm w)).1 ≡ (
        if is_due publish_interval_s st fix w
        then some (base_entries (location_of fix) "gpsd")
        else stored_base w)
unfolding on_fix ◌>>=◌ time gets pure
on_fix-stored_base publish_interval_s st fix w =
    let skip =
      due_if (moved st.last_pos fix) (leb_ℤ publish_interval_s (w.clock -ℤ st.last_publish)) in
    elim (Bool-cases (is_due publish_interval_s st fix w)) [
      | inl due ↦ rw (skip, due) (publish_stored fix w.clock w)
      | inr idle ↦ rw (skip, idle) refl
    ]
