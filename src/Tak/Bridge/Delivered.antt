-- ===== src/Tak/Bridge/Delivered.antt =====
-- A location on its way from the service's state aggregator to the TAK server's queue.
use meshcore_rpc_services.Prelude.{
  ◌≡◌, refl, ap, ◌∙◌, true, false, not, Option, some, [], ◌∷◌, String, ◌==◌, eq_refl, arith,
  if◌then◌else◌, or_else, filter, Bool-cases, inl, inr,
}
use meshcore_rpc_services.Prelude.Int.{ℤ, Fixed, of_int, ◌+ℤ◌}
use meshcore_rpc_services.Prelude.Dict.{Dict, lookup, insert, lookup-insert}
use meshcore_rpc_services.Runtime.{ok}
use meshcore_rpc_services.State.{compact_json, location_entries}
use meshcore_rpc_services.Store.Rows.{LocationFix}
use meshcore_rpc_services.Topics
use meshcore_rpc_services.Value.{Json, float, obj, entries, entries-of_entries, number?, is_null}
use meshcore_rpc_services.Tak.Cot.{Writer, event_xml, line, is_datetime, build_cot_lem}
use meshcore_rpc_services.Tak.NodeTopic.Parsing.{
  IsLevel, extract_node_id-topics, key_for-extract_node_id,
}
use meshcore_rpc_services.Tak.NodeTopic.Shapes.{location_topic-shape}
use meshcore_rpc_services.Tak.Sink.{queue_cap, send}
use meshcore_rpc_services.Tak.Bridge.{
  Bridge, TakBridgeConfig, update, merged, merge_state, event_of, event_for, emit, as_event,
  publish_one, callsign_of,
}
use meshcore_rpc_services.Tak.Bridge.Messages.{
  ingest, located, handle_mqtt_message, on_payload, publish_changed,
}

-- The last value of a key that is not None, or the one that was there.
abbrev latest : String → Dict Json → Option Json → Option Json
latest k [] o = o
latest k ((j, v) ∷ d) o = latest k d (if j == k then (if is_null v then o else some v) else o)

lookup-put :
    (k j : String) (v : Json) (cur : Dict Json)
    → lookup k (if is_null v then cur else insert j v cur)
      ≡ (if j == k then (if is_null v then lookup k cur else some v) else lookup k cur)
lookup-put k j v cur = ground (arith, lookup-insert j k v cur)

lookup-update :
    (k : String) (d cur : Dict Json) → lookup k (update d cur) ≡ latest k d (lookup k cur)
lookup-update k [] cur = refl
lookup-update k ((j, v) ∷ d) cur = lookup-update k d _ ∙ ap (latest k d) (lookup-put k j v cur)

-- Leaving None out beforehand makes no difference.
update-filter : (d cur : Dict Json) → update (filter (λ e. not (is_null e.1)) d) cur ≡ update d cur
update-filter [] cur = refl
update-filter ((j, v) ∷ d) cur = elim (Bool-cases (is_null v)) [
  | inl null_ ↦ rw null_ (update-filter d cur)
  | inr other ↦ rw other (rw other (update-filter d (insert j v cur)))
]

abbrev entries_of : Json → Dict Json
entries_of (obj fs) = entries fs
entries_of _ = []

-- Merging the payload is merging the entries that the service started from.
merge-compact :
    (id : String) (d : Dict Json) (now : Fixed) (b : Bridge)
    → merge_state id (entries_of (compact_json d)) "node" now b
      ≡ record b { state = insert id (merged d "node" (lookup id b.state) now) b.state }
unfolding merge_state compact_json
merge-compact id d now b =
    ap (λ (r : Dict Json). record b { state = insert id (insert "_updated" (float now) r) b.state })
      (ap
          (λ (fs : Dict Json).
            update fs (or_else (lookup id b.state) (("_kind", Json.str "node") ∷ [])))
          (entries-of_entries (filter (λ e. not (is_null e.1)) d))
        ∙ update-filter d (or_else (lookup id b.state) (("_kind", Json.str "node") ∷ [])))

module _ (node_id : String) (fix : LocationFix) (source : String) (rssi : Option ℤ)
    (snr : Option Fixed) where
  -- The record of the node once the location is merged into it.
  abbrev pub located_record : Option (Dict Json) → Fixed → Dict Json
  located_record cur now = merged (location_entries node_id fix source rssi snr) "node" cur now

  lookup-located_record :
      (k : String) (cur : Option (Dict Json)) (now : Fixed)
      → ("_updated" == k) ≡ false
      → lookup k (located_record cur now)
        ≡ latest k
            (location_entries node_id fix source rssi snr)
            (lookup k (or_else cur (("_kind", Json.str "node") ∷ [])))
  lookup-located_record k cur now h =
      lookup-insert "_updated" k (float now) _
      ∙ rw h (
          lookup-update k (location_entries node_id fix source rssi snr)
            (or_else cur (("_kind", Json.str "node") ∷ [])))

  lookup-lat :
      (cur : Option (Dict Json)) (now : Fixed)
      → number? (lookup "lat" (located_record cur now)) ≡ some fix.lat
  lookup-lat cur now = ap number? (lookup-located_record "lat" cur now refl)

  lookup-lon :
      (cur : Option (Dict Json)) (now : Fixed)
      → number? (lookup "lon" (located_record cur now)) ≡ some fix.lon
  lookup-lon cur now = ap number? (lookup-located_record "lon" cur now refl)

  lookup-ts :
      (cur : Option (Dict Json)) (now : Fixed)
      → number? (lookup "ts" (located_record cur now)) ≡ some fix.ts
  lookup-ts cur now = ap number? (lookup-located_record "ts" cur now refl)

ingest-location_topic :
    (id : String) (d : Dict Json) (now : Fixed) (b : Bridge)
    → IsLevel id
    → ingest (Topics.node_location_topic id) d now b ≡ some (merge_state id d "node" now b)
unfolding ingest
ingest-location_topic id d now b level =
    let ((base, begins), ends) = location_topic-shape id in
    let read = (extract_node_id-topics (Topics.node_location_topic id) id).0.1 (refl, level) in
    rw base (rw begins (rw ends (ap (λ o. some (located o d now b)) read)))

module _ (writer : Writer) (cfg : TakBridgeConfig) where
  -- A record with a position and a time gives its event.
  event_for-record :
      (key : String) (now lat lon ts : Fixed) (callsign : String) (r : Dict Json)
      → callsign_of writer cfg key ≡ ok callsign
      → is_datetime ts ≡ true
      → is_datetime (ts +ℤ of_int cfg.stale_after_s) ≡ true
      → number? (lookup "lat" r) ≡ some lat
      → number? (lookup "lon" r) ≡ some lon
      → number? (lookup "ts" r) ≡ some ts
      → event_for writer cfg key now (some r)
        ≡ ok (some (line writer (event_xml writer (event_of writer cfg key r lat lon ts callsign))))
  unfolding event_for lookup
  event_for-record key now lat lon ts callsign [] hc ht hs hlat hlon hts = absurd cc
  event_for-record key now lat lon ts callsign (e ∷ r) hc ht hs hlat hlon hts = rw hlat (
      rw hlon (
        rw hc (
          rw hts (
            rw ht (
              ap as_event
                (build_cot_lem writer (event_of writer cfg key (e ∷ r) lat lon ts callsign) hs))))))

  -- A location that the service publishes for a node, whose id is one level of a topic, is handled
  -- without an exception by a bridge that receives it, if its time and the time at which it is
  -- stale are datetimes and the callsign can be written: the node's record takes the position and
  -- the time, an event of that record with this very position and time goes to the queue, and all
  -- other records and the offline times stay as they are.
  pub handle_mqtt_message-location :
      (decode : String → Option Json) (payload : String) (now : Fixed) (b : Bridge) (id : String)
      (fix : LocationFix) (source : String) (rssi : Option ℤ) (snr : Option Fixed)
      (callsign : String)
      → decode payload ≡ some (compact_json (location_entries id fix source rssi snr))
      → IsLevel id
      → callsign_of writer cfg id ≡ ok callsign
      → is_datetime fix.ts ≡ true
      → is_datetime (fix.ts +ℤ of_int cfg.stale_after_s) ≡ true
      → let r = located_record id fix source rssi snr (lookup id b.state) now in
        let xml =
          line writer
            (event_xml writer (event_of writer cfg id r fix.lat fix.lon fix.ts callsign)) in
        (handle_mqtt_message writer cfg decode (Topics.node_location_topic id) payload now b
          ≡ (ok tt, record b { state = insert id r b.state; queue = send queue_cap xml b.queue }))
        × (number? (lookup "lat" r) ≡ some fix.lat)
        × (number? (lookup "lon" r) ≡ some fix.lon)
        × (number? (lookup "ts" r) ≡ some fix.ts)
  unfolding handle_mqtt_message publish_one compact_json
  handle_mqtt_message-location decode payload now b id fix source rssi snr callsign hdec level hc ht
        hs =
      let cur = lookup id b.state in
      let hlat = lookup-lat id fix source rssi snr cur now in
      let hlon = lookup-lon id fix source rssi snr cur now in
      let hts = lookup-ts id fix source rssi snr cur now in
      let entered = location_entries id fix source rssi snr in
      let topic = Topics.node_location_topic id in
      let d = entries_of (compact_json entered) in
      let read = (extract_node_id-topics topic id).0.1 (refl, level) in
      let merged_b = record b {
        state = insert id (located_record id fix source rssi snr cur now) b.state;
      } in
      let event =
        event_for-record id now fix.lat fix.lon fix.ts callsign
          (located_record id fix source rssi snr cur now) hc ht hs hlat hlon hts in
      (
        ap (λ o. on_payload writer cfg decode topic o now b) hdec
            ∙ ap (λ o. publish_changed writer cfg decode topic d now o b)
                (ingest-location_topic id d now b level)
            ∙ ap (λ k. publish_one writer cfg k now (merge_state id d "node" now b))
                (key_for-extract_node_id topic id d (inl read))
            ∙ ap (publish_one writer cfg id now) (merge-compact id entered now b)
            ∙ ap (λ o. emit (event_for writer cfg id now o) merged_b)
                (lookup-insert id id (located_record id fix source rssi snr cur now) b.state
                  ∙ rw (eq_refl id))
            ∙ ap (λ e. emit e merged_b) event,
        hlat,
        hlon,
        hts,
      )
