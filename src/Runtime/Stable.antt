-- ===== src/Runtime/Stable.antt =====
-- An interface between the handlers and the pipeline: what a predicate on the state must bear for
-- the handlers to keep it, and the awaited calls of the handlers over it.
use meshcore_rpc_services.Prelude.{◌≡◌, refl, true, Option, none, some, List, [], ◌∷◌, ◌++◌, String}
use meshcore_rpc_services.Prelude.Int.{ℤ, Fixed}
use meshcore_rpc_services.Prelude.Dict.{Dict}
use meshcore_rpc_services.Store.Nodes
use meshcore_rpc_services.Store.Rows.{LocationFix, Db}
use meshcore_rpc_services.Runtime.{M, World, Outcome, Radio, after}
use meshcore_rpc_services.Runtime.Keeps.{Keeps, Keeps-perform, Keeps-raise, keeps_rules}
use meshcore_rpc_services.Runtime.Calls.{
  write, query, counts, mark_node_seen, get_last_seen, upsert_node_location, get_node_location,
  upsert_node_battery, get_node_battery, upsert_base_state, get_base_state, record_gateway_snapshot,
  unless_error, publish, send, message,
}
use meshcore_rpc_services.Value.{Json}

-- `P` does not depend on the clock, the radio cache and the tables of nodes, nor on what is
-- published as retained state.
pub record IsStable (P : World → Type 0) : Type 0 where
  pub tick :
      (w : World) (t : Fixed) (o : Outcome) (rest : List Outcome)
      → w.script ≡ o ∷ rest
      → P w
      → P (after t rest w)
  pub tables : (w : World) (db : Db) → db.requests ≡ w.db.requests → P w → P (record w { db = db })
  pub radio : (w : World) (r : Dict Radio) → P w → P (record w { last_radio = r })
  pub retained :
      (w : World) (topic : String) (payload : Json)
      → P w
      → P (record w { published = w.published ++ message topic payload true ∷ [] })

module _ {P : World → Type 0} (stable : IsStable P) where
  Keeps-write :
      (statement : Fixed → Db → Db)
      → ((now : Fixed) (db : Db) → (statement now db).requests ≡ db.requests)
      → Keeps P (write statement)
  unfolding write
  Keeps-write statement same =
      Keeps-perform _ stable.tick
        (λ w h. stable.tables w (statement w.clock w.db) (same w.clock w.db) h)

  pub Keeps-query : {A : Type 0} (statement : Db → A) → Keeps P (query statement)
  unfolding query
  Keeps-query statement = Keeps-perform _ stable.tick (λ w h. h)

  pub Keeps-mark_node_seen : (node_id : String) (ts : Fixed) → Keeps P (mark_node_seen node_id ts)
  unfolding mark_node_seen Nodes.mark_node_seen
  Keeps-mark_node_seen node_id ts = Keeps-write _ (λ now db. refl)

  pub Keeps-upsert_node_location :
      (node_id : String) (fix : LocationFix) (source : Option String) (rssi : Option ℤ)
      (snr : Option Fixed)
      → Keeps P (upsert_node_location node_id fix source rssi snr)
  unfolding upsert_node_location Nodes.upsert_node_location
  Keeps-upsert_node_location node_id fix source rssi snr = Keeps-write _ (λ now db. refl)

  pub Keeps-upsert_node_battery :
      (node_id : String) (ts : Fixed) (pct : Option ℤ) (voltage : Option Fixed)
      (source : Option String)
      → Keeps P (upsert_node_battery node_id ts pct voltage source)
  unfolding upsert_node_battery Nodes.upsert_node_battery
  Keeps-upsert_node_battery node_id ts pct voltage source = Keeps-write _ (λ now db. refl)

  pub Keeps-upsert_base_state :
      (key : String) (value : Dict Json) → Keeps P (upsert_base_state key value)
  unfolding upsert_base_state Nodes.upsert_base_state
  Keeps-upsert_base_state key value = Keeps-write _ (λ now db. refl)

  Keeps-unless_error : (o : Option String) (m : M Unit) → Keeps P m → Keeps P (unless_error o m)
  Keeps-unless_error none m k = k
  Keeps-unless_error (some name) m k = Keeps-raise _

  pub Keeps-record_gateway_snapshot :
      (state detail since : Json) → Keeps P (record_gateway_snapshot state detail since)
  unfolding record_gateway_snapshot Nodes.record_gateway_snapshot
  Keeps-record_gateway_snapshot state detail since =
      Keeps-unless_error _ _ (Keeps-write _ (λ now db. refl))

  pub Keeps-get_last_seen : (node_id : String) → Keeps P (get_last_seen node_id)
  unfolding get_last_seen
  Keeps-get_last_seen node_id = Keeps-query _

  pub Keeps-get_node_location : (node_id : String) → Keeps P (get_node_location node_id)
  unfolding get_node_location
  Keeps-get_node_location node_id = Keeps-query _

  pub Keeps-get_node_battery : (node_id : String) → Keeps P (get_node_battery node_id)
  unfolding get_node_battery
  Keeps-get_node_battery node_id = Keeps-query _

  pub Keeps-get_base_state : (key : String) → Keeps P (get_base_state key)
  unfolding get_base_state
  Keeps-get_base_state key = Keeps-query _

  pub Keeps-counts : Keeps P counts
  unfolding counts
  Keeps-counts = search (keeps_rules, Keeps-query)

  Keeps-send : (topic : String) (payload : Json) → Keeps P (send (message topic payload true))
  unfolding send
  Keeps-send topic payload = Keeps-perform _ stable.tick (λ w h. stable.retained w topic payload h)

  pub Keeps-publish_retained :
      (topic : String) (payload : Json) → Keeps P (publish topic payload true)
  unfolding publish
  Keeps-publish_retained topic payload = search (keeps_rules, Keeps-send)
