-- ===== src/Tak/Bridge/Reachable.antt =====
-- The states that the bridge reaches: its two tasks and its sink in any order.
use meshcore_rpc_services.Prelude.{
  ◌≡◌, ap, ◌≤◌, Option, none, some, List, [], ◌∷◌, String, arith, length, map, or_else,
  length-append, Bool-cases, inl, inr,
}
use meshcore_rpc_services.Prelude.Int.{pos, Fixed, leb_ℤ}
use meshcore_rpc_services.Prelude.Dict.{Dict, lookup, contains}
use meshcore_rpc_services.Runtime.{Result, ok, err}
use meshcore_rpc_services.Value.{Json, obj, entries, number?}
use meshcore_rpc_services.Tak.Cot.{Writer}
use meshcore_rpc_services.Tak.NodeTopic.{key_for}
use meshcore_rpc_services.Tak.Sink.{queue_cap, put_or_drop}
use meshcore_rpc_services.Tak.Bridge.{
  Bridge, TakBridgeConfig, event_for, publish_one, publish_keys, republish_all, go_on,
}
use meshcore_rpc_services.Tak.Bridge.Messages.{
  ingest, handle_mqtt_message, on_payload, publish_changed,
}
use meshcore_rpc_services.Tak.Bridge.Heartbeat.{
  drop_at, publish_drop, evict, to_evict, evict_long_offline, heartbeat_round,
}
use meshcore_rpc_services.Tak.Bridge.Invariant.{
  IsValid, emit-IsValid, forget-IsValid, ingest-IsValid,
}

abbrev pub new_bridge : Bridge
new_bridge = record { state = []; offline_since = []; queue = [] }

abbrev with_queue : List String → Bridge → Bridge
with_queue q b = record b { queue = q }

module _ (writer : Writer) (cfg : TakBridgeConfig) (decode : String → Option Json) where
  -- A message is handled, the heartbeat has a round, the sink takes an event or puts one back, or it
  -- has reconnected. An exception leaves what was done before it.
  pub data Step : Bridge → Bridge → Type 0 where
    received :
        (topic payload : String) (now : Fixed) (b : Bridge)
        → Step b (handle_mqtt_message writer cfg decode topic payload now b).1
    beat : (now : Fixed) (b : Bridge) → Step b (heartbeat_round writer cfg now b).1
    taken :
        (xml : String) (rest : List String) (b : Bridge)
        → b.queue ≡ xml ∷ rest
        → Step b (with_queue rest b)
    returned :
        (xml : String) (b : Bridge) → Step b (with_queue (put_or_drop queue_cap xml b.queue) b)
    reconnected :
        (now : Fixed) (b : Bridge) → Step b (republish_all writer cfg now (with_queue [] b)).1

  pub data Reachable : Bridge → Type 0 where
    start : Reachable new_bridge
    next : {b b' : Bridge} → Reachable b → Step b b' → Reachable b'

  requeued-IsValid :
      (q : List String) (b : Bridge) → length q ≤ queue_cap → IsValid b → IsValid (with_queue q b)
  requeued-IsValid q b h v = record {
    state_distinct = v.state_distinct;
    offline_distinct = v.offline_distinct;
    offline_known = v.offline_known;
    queue_bound = h;
  }

  put-bound :
      (x : String) (q : List String)
      → length q ≤ queue_cap
      → length (put_or_drop queue_cap x q) ≤ queue_cap
  put-bound x q h = ground (arith, length-append {0} q (x ∷ []))

  publish_one-IsValid :
      (key : String) (now : Fixed) (b : Bridge)
      → IsValid b
      → IsValid (publish_one writer cfg key now b).1
  unfolding publish_one
  publish_one-IsValid key now b v =
      emit-IsValid (event_for writer cfg key now (lookup key b.state)) b v

  go_on-IsValid :
      (r : Result Unit) (b : Bridge) (rest : Bridge → Result Unit × Bridge)
      → IsValid b
      → ((c : Bridge) → IsValid c → IsValid (rest c).1)
      → IsValid (go_on r b rest).1
  go_on-IsValid (ok u) b rest v f = f b v
  go_on-IsValid (err e) b rest v f = v

  publish_keys-IsValid :
      (keys : List String) (now : Fixed) (b : Bridge)
      → IsValid b
      → IsValid (publish_keys writer cfg keys now b).1
  unfolding publish_keys
  publish_keys-IsValid [] now b v = v
  publish_keys-IsValid (key ∷ keys) now b v =
      let (r, b') = publish_one writer cfg key now b in
      go_on-IsValid r b' (publish_keys writer cfg keys now) (publish_one-IsValid key now b v)
        (publish_keys-IsValid keys now)

  republish-IsValid :
      (now : Fixed) (b : Bridge) → IsValid b → IsValid (republish_all writer cfg now b).1
  unfolding republish_all
  republish-IsValid now b v = publish_keys-IsValid (map (λ e. e.0) b.state) now b v

  drop_at-IsValid :
      (id : String) (now : Fixed) (lat lon : Option Fixed) (b : Bridge)
      → IsValid b
      → IsValid (drop_at writer cfg id now lat lon b)
  drop_at-IsValid id now (some lat) (some lon) b v = emit-IsValid (ok (some _)) b v
  drop_at-IsValid id now (some lat) none b v = v
  drop_at-IsValid id now none lon b v = v

  publish_drop-IsValid :
      (id : String) (now : Fixed) (r : Option (Dict Json)) (b : Bridge)
      → IsValid b
      → IsValid (publish_drop writer cfg id now r b)
  publish_drop-IsValid id now none b v = v
  publish_drop-IsValid id now (some r) b v =
      drop_at-IsValid id now (number? (lookup "lat" r)) (number? (lookup "lon" r)) b v

  evict-IsValid :
      (ids : List String) (now : Fixed) (b : Bridge)
      → IsValid b
      → IsValid (evict writer cfg ids now b)
  unfolding evict
  evict-IsValid [] now b v = v
  evict-IsValid (id ∷ ids) now b v =
      evict-IsValid ids now _
        (forget-IsValid id _ (publish_drop-IsValid id now (lookup id b.state) b v))

  evict_long_offline-IsValid :
      (now : Fixed) (b : Bridge) → IsValid b → IsValid (evict_long_offline writer cfg now b)
  unfolding evict_long_offline
  evict_long_offline-IsValid now b v =
      elim (Bool-cases (leb_ℤ cfg.remove_after_offline_s (pos 0))) [
        | inl off ↦ rw off v
        | inr on ↦ rw on (evict-IsValid (to_evict writer cfg now b.offline_since) now b v)
      ]

  publish_changed-IsValid :
      (topic : String) (d : Dict Json) (now : Fixed) (o : Option Bridge) (b : Bridge)
      → IsValid (or_else o b)
      → IsValid (publish_changed writer cfg decode topic d now o b).1
  publish_changed-IsValid topic d now none b v = v
  publish_changed-IsValid topic d now (some b') b v = publish_one-IsValid (key_for topic d) now b' v

  on_payload-IsValid :
      (topic : String) (o : Option Json) (now : Fixed) (b : Bridge)
      → IsValid b
      → IsValid (on_payload writer cfg decode topic o now b).1
  on_payload-IsValid topic (some (obj fs)) now b v =
      publish_changed-IsValid topic (entries fs) now (ingest topic (entries fs) now b) b
        (ingest-IsValid topic (entries fs) now b v)
  on_payload-IsValid topic o now b v = v

  Step-IsValid : {b b' : Bridge} → Step b b' → IsValid b → IsValid b'
  unfolding handle_mqtt_message heartbeat_round
  Step-IsValid (received topic payload now b) v = on_payload-IsValid topic (decode payload) now b v
  Step-IsValid (beat now b) v = republish-IsValid now _ (evict_long_offline-IsValid now b v)
  Step-IsValid (taken xml rest b e) v =
      requeued-IsValid rest b (omega (arith, v.queue_bound, ap length e)) v
  Step-IsValid (returned xml b) v = requeued-IsValid _ b (put-bound xml b.queue v.queue_bound) v
  Step-IsValid (reconnected now b) v =
      republish-IsValid now _ (requeued-IsValid [] b (omega arith) v)

  new_bridge-IsValid : IsValid new_bridge
  unfolding contains
  new_bridge-IsValid = record {
    state_distinct = tt;
    offline_distinct = tt;
    offline_known = λ id h. h;
    queue_bound = omega arith;
  }

  -- In every state that the bridge reaches, whatever messages come, whenever the heartbeat and the sink
  -- run, and whatever raises: each node has one record and at most one offline time, each node with an
  -- offline time has a record, and at most 256 events are queued.
  pub Reachable-IsValid : (b : Bridge) → Reachable b → IsValid b
  Reachable-IsValid b start = new_bridge-IsValid
  Reachable-IsValid b (next before step) = Step-IsValid step (Reachable-IsValid _ before)
