-- ===== src/State/Running.antt =====
-- Storing a location, where calls are performed at once and the broker is connected.
use meshcore_rpc_services.Prelude.{
  ◌≡◌, refl, sym, subst, ap, ◌∙◌, Bool, true, Option, none, some, [], String, eq_refl,
  if◌then◌else◌,
}
use meshcore_rpc_services.Prelude.Int.{ℤ, Fixed}
use meshcore_rpc_services.Prelude.Dict.{lookup, lookup-insert}
use meshcore_rpc_services.Runtime.{World, Result, crash, raise, gets, ok, ◌>>=◌, Message}
use meshcore_rpc_services.Runtime.Calls.{
  write, query, upsert_node_location, mark_node_seen, get_node_location, publish, send, message,
  get_last_seen, get_node_battery,
}
use meshcore_rpc_services.Runtime.Runs.{
  Runs, Runs-bind, Runs-pure, Runs-gets, Runs-time, Runs-modify, Runs-if, Runs-perform,
}
use meshcore_rpc_services.State.{
  apply_location, note_radio, republish_state, get_node_state, seen_state, publish_state, NodeState,
}
use meshcore_rpc_services.Store.Nodes
use meshcore_rpc_services.Store.Rows.{Db, LocationFix, LocationRow}
use meshcore_rpc_services.Value.{Json}

-- Calls are performed at once, and the broker is connected.
abbrev pub IsReady : Fixed → World → Type 0
IsReady now w = (w.script ≡ []) × (w.connected ≡ true) × (w.clock ≡ now)

abbrev pub row_of : LocationFix → String → LocationRow
row_of fix source = record { located = fix; source = some source; rssi = none; snr = none }

module _ (id : String) (row : LocationRow) (now : Fixed) where
  -- The row is stored, beside that.
  abbrev pub IsLocated : World → Type 0
  IsLocated w = IsReady now w × (lookup id w.db.node_locations ≡ some row)

  Runs-write :
      (statement : Fixed → Db → Db)
      → ((t : Fixed) (db : Db) → (statement t db).node_locations ≡ db.node_locations)
      → Runs IsLocated IsLocated (write statement)
  unfolding write
  Runs-write statement same =
      Runs-perform _ (λ w h. h.0.0) (λ w h. (h.0, ap (lookup id) (same w.clock w.db) ∙ h.1))

  Runs-query : {A : Type 0} (statement : Db → A) → Runs IsLocated IsLocated (query statement)
  unfolding query
  Runs-query statement = Runs-perform _ (λ w h. h.0.0) (λ w h. h)

  Runs-send : (m : Message) → Runs IsLocated IsLocated (send m)
  unfolding send
  Runs-send m = Runs-perform _ (λ w h. h.0.0) (λ w h. h)

  abbrev IsDone : {A : Type 0} → Result A × World → Type 0
  IsDone {A} r = ((a : A) × (r.0 ≡ ok a)) × IsLocated r.1

  publish_connected :
      (topic : String) (payload : Json) (w : World)
      → w.connected ≡ true
      → publish topic payload true w ≡ send (message topic payload true) w
  unfolding publish ◌>>=◌ gets
  publish_connected topic payload w h =
      ap
        (λ (b : Bool).
          (if b then send (message topic payload true) else raise (crash "RuntimeError")) w)
        h

  Runs-publish :
      (topic : String) (payload : Json) → Runs IsLocated IsLocated (publish topic payload true)
  Runs-publish topic payload = record {
    at = λ w h.
        subst IsDone (sym (publish_connected topic payload w h.0.1))
          ((Runs-send (message topic payload true)).at w h);
  }

  Runs-note_radio :
      (node_id : String) (ts : Fixed) (rssi : Option ℤ) (snr : Option Fixed)
      → Runs IsLocated IsLocated (note_radio node_id ts rssi snr)
  unfolding note_radio
  Runs-note_radio node_id ts rssi snr = Runs-if _ _ _ (Runs-modify _ (λ w h. h)) (Runs-pure tt)

  Runs-seen_state :
      (node_id : String) (o : Option Fixed) → Runs IsLocated IsLocated (seen_state node_id o)
  unfolding seen_state get_node_location get_node_battery
  Runs-seen_state node_id none = Runs-pure none
  Runs-seen_state node_id (some seen) = Runs-bind _ _ (Runs-query _) (λ loc.
      Runs-bind _ _ (Runs-query _)
        (λ bat. Runs-bind _ _ (Runs-gets _) (λ radio. Runs-bind _ _ Runs-time (λ t. Runs-pure _))))

  Runs-publish_state :
      (node_id : String) (o : Option NodeState) → Runs IsLocated IsLocated (publish_state node_id o)
  unfolding publish_state
  Runs-publish_state node_id none = Runs-pure tt
  Runs-publish_state node_id (some st) = Runs-publish _ _

  Runs-republish_state : (node_id : String) → Runs IsLocated IsLocated (republish_state node_id)
  unfolding republish_state get_node_state get_last_seen
  Runs-republish_state node_id =
      Runs-bind _ _ (Runs-bind _ _ (Runs-query _) (λ seen. Runs-seen_state node_id seen))
        (λ st. Runs-publish_state node_id st)

Runs-upsert :
    (id : String) (fix : LocationFix) (source : String) (now : Fixed)
    → Runs
        (IsReady now)
        (IsLocated id (row_of fix source) now)
        (upsert_node_location id fix (some source) none none)
unfolding upsert_node_location write Nodes.upsert_node_location
Runs-upsert id fix source now =
    Runs-perform _ (λ w h. h.0)
      (λ w h. (h, lookup-insert id id (row_of fix source) w.db.node_locations ∙ rw (eq_refl id)))

-- The row is stored, whatever the aggregator publishes.
pub Runs-apply_location :
    (id : String) (fix : LocationFix) (source : String) (now : Fixed)
    → Runs
        (IsReady now)
        (IsLocated id (row_of fix source) now)
        (apply_location id fix source none none)
unfolding apply_location mark_node_seen Nodes.mark_node_seen
Runs-apply_location id fix source now =
    let row = row_of fix source in
    Runs-bind _ _ (Runs-upsert id fix source now) (λ _.
      Runs-bind _ _ (Runs-write id row now _ (λ t db. refl)) (λ _.
        Runs-bind _ _ (Runs-note_radio id row now id fix.ts none none) (λ _.
          Runs-bind _ _ (Runs-publish id row now _ _) (λ _. Runs-republish_state id row now id))))
