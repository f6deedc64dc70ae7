-- ===== src/Tak/Bridge/Republishing.antt =====
-- What a republishing round queues, and what ends it.
use meshcore_rpc_services.Prelude.{
  ◌≡◌, refl, ap, ◌∙◌, ◌≤◌, Bool, true, false, Option, none, some, List, [], ◌∷◌, ◌++◌, String,
  arith, length, if◌then◌else◌, map, Bool-cases, inl, inr, ◌==◌, eq_iff, subst,
}
use meshcore_rpc_services.Prelude.Int.{Fixed}
use meshcore_rpc_services.Prelude.Dict.{Dict, lookup, contains, contains-lookup}
use meshcore_rpc_services.Prelude.Keys.{has_key}
use meshcore_rpc_services.Runtime.{Result, ok, err}
use meshcore_rpc_services.Value.{Json, number?}
use meshcore_rpc_services.Tak.Cot.{Writer, is_datetime}
use meshcore_rpc_services.Tak.Sink.{queue_cap, send, send_all}
use meshcore_rpc_services.Tak.Sink.Recent.{keep_last, send_all-keep_last}
use meshcore_rpc_services.Tak.Bridge.{
  Bridge, TakBridgeConfig, emit, event_for, publish_one, publish_keys, republish_all, go_on, called,
  callsign_of,
}

-- All events, in their order, or the first exception.
abbrev pub put_first : Result (Option String) → Result (List String) → Result (List String)
put_first (err e) rest = err e
put_first (ok x) (err e) = err e
put_first (ok none) (ok xs) = ok xs
put_first (ok (some x)) (ok xs) = ok (x ∷ xs)

abbrev pub collect : (String → Result (Option String)) → List String → Result (List String)
collect f [] = ok []
collect f (key ∷ keys) = put_first (f key) (collect f keys)

abbrev pub is_raised : {A : Type 0} → Result A → Bool
is_raised (ok a) = false
is_raised (err e) = true

abbrev bridge : Dict (Dict Json) → Dict Fixed → List String → Bridge
bridge st since q = record { state = st; offline_since = since; queue = q }

-- One key's event and the rest.
emit-collect :
    (st : Dict (Dict Json)) (since : Dict Fixed) (rest : Bridge → Result Unit × Bridge)
    (r : Result (Option String)) (more : Result (List String)) (q xs : List String)
    → put_first r more ≡ ok xs
    → ((p ys : List String)
        → more ≡ ok ys
        → rest (bridge st since p) ≡ (ok tt, bridge st since (send_all queue_cap ys p)))
    → go_on (emit r (bridge st since q)).0 (emit r (bridge st since q)).1 rest
      ≡ (ok tt, bridge st since (send_all queue_cap xs q))
unfolding send_all
emit-collect st since rest (err e) more q xs h f = absurd cc
emit-collect st since rest (ok none) (err e) q xs h f = absurd cc
emit-collect st since rest (ok (some x)) (err e) q xs h f = absurd cc
emit-collect st since rest (ok none) (ok ys) q xs h f = f q xs h
emit-collect st since rest (ok (some x)) (ok ys) q xs h f =
    let same : x ∷ ys ≡ xs = cc in
    f (send queue_cap x q) ys refl
    ∙ ap (λ l. (ok tt, bridge st since (send_all queue_cap l q))) same

module _ (writer : Writer) (cfg : TakBridgeConfig) where
  -- The events of all records, as they are at a time.
  abbrev pub events : Fixed → Bridge → Result (List String)
  events now b =
      collect (λ key. event_for writer cfg key now (lookup key b.state)) (map (λ e. e.0) b.state)

  publish_keys-collect :
      (keys : List String) (now : Fixed) (st : Dict (Dict Json)) (since : Dict Fixed)
      (q xs : List String)
      → collect (λ key. event_for writer cfg key now (lookup key st)) keys ≡ ok xs
      → publish_keys writer cfg keys now (record { state = st; offline_since = since; queue = q })
        ≡ (ok tt, record { state = st; offline_since = since; queue = send_all queue_cap xs q })
  unfolding publish_keys publish_one send_all
  publish_keys-collect [] now st since q xs h =
      let same : [] ≡ xs = cc in ap (λ l. (ok tt, bridge st since (send_all queue_cap l q))) same
  publish_keys-collect (key ∷ keys) now st since q xs h =
      emit-collect st since (publish_keys writer cfg keys now)
        (event_for writer cfg key now (lookup key st))
        (collect (λ k. event_for writer cfg k now (lookup k st)) keys) q xs h
        (publish_keys-collect keys now st since)

  -- Where every record gives an event or has no position yet, and the queue is within its bound,
  -- republishing succeeds, and the queue then holds the newest 256 of what it held and of the
  -- events of all records behind it, in their order; the records and the offline times stay as they
  -- are.
  pub republish_all-events :
      (now : Fixed) (b : Bridge) (xs : List String)
      → length b.queue ≤ queue_cap
      → events now b ≡ ok xs
      → republish_all writer cfg now b
        ≡ (ok tt, record b { queue = keep_last queue_cap (b.queue ++ xs) })
  unfolding republish_all
  republish_all-events now b xs room h =
      publish_keys-collect (map (λ e. e.0) b.state) now b.state b.offline_since b.queue xs h
      ∙ ap (λ (q : List String). (ok tt, record b { queue = q }))
          (send_all-keep_last queue_cap (omega arith) xs b.queue room).0

  -- A record with a position and a time that is no datetime.
  abbrev pub HasBadTime : Dict Json → Type 0
  HasBadTime r =
      (lat : Fixed) × (lon : Fixed) × (ts : Fixed) × (number? (lookup "lat" r) ≡ some lat)
      × (number? (lookup "lon" r) ≡ some lon)
      × (number? (lookup "ts" r) ≡ some ts)
      × (is_datetime ts ≡ false)

  called-raised :
      (key : String) (r : Dict Json) (lat lon now ts : Fixed) (callsign : Result String)
      → number? (lookup "ts" r) ≡ some ts
      → is_datetime ts ≡ false
      → is_raised (called writer cfg key r lat lon now callsign) ≡ true
  called-raised key r lat lon now ts (err e) h bad = refl
  called-raised key r lat lon now ts (ok callsign) h bad = rw h (rw bad refl)

  event_for-raised :
      (key : String) (now : Fixed) (r : Dict Json)
      → HasBadTime r
      → is_raised (event_for writer cfg key now (some r)) ≡ true
  unfolding event_for lookup
  event_for-raised key now [] (lat, lon, ts, hlat, hlon, hts, bad) = absurd cc
  event_for-raised key now (e ∷ r) (lat, lon, ts, hlat, hlon, hts, bad) =
      rw hlat
        (rw hlon (called-raised key (e ∷ r) lat lon now ts (callsign_of writer cfg key) hts bad))

  emit-raised :
      (st : Dict (Dict Json)) (since : Dict Fixed) (rest : Bridge → Result Unit × Bridge)
      (r : Result (Option String)) (q : List String)
      → (is_raised r ≡ false → (p : List String) → is_raised (rest (bridge st since p)).0 ≡ true)
      → is_raised (go_on (emit r (bridge st since q)).0 (emit r (bridge st since q)).1 rest).0
        ≡ true
  emit-raised st since rest (err e) q f = refl
  emit-raised st since rest (ok none) q f = f refl q
  emit-raised st since rest (ok (some x)) q f = f refl (send queue_cap x q)

  publish_keys-raised :
      (key : String) (keys : List String) (now : Fixed) (st : Dict (Dict Json)) (since : Dict Fixed)
      (q : List String)
      → has_key key keys ≡ true
      → is_raised (event_for writer cfg key now (lookup key st)) ≡ true
      → is_raised (publish_keys writer cfg keys now (bridge st since q)).0 ≡ true
  unfolding publish_keys publish_one
  publish_keys-raised key [] now st since q has h = absurd cc
  publish_keys-raised key (k ∷ keys) now st since q has h =
      emit-raised st since (publish_keys writer cfg keys now)
        (event_for writer cfg k now (lookup k st)) q
        (λ calm p. elim (Bool-cases (k == key)) [
          | inl same ↦
              let quiet =
                subst (λ s. is_raised (event_for writer cfg s now (lookup s st)) ≡ false)
                  ((eq_iff k key).0 same) calm in
              absurd cc
          | inr other ↦ publish_keys-raised key keys now st since p (ground (arith, has, other)) h
        ])

  has_key-contains :
      (key : String) (st : Dict (Dict Json)) → has_key key (map (λ e. e.0) st) ≡ contains key st
  unfolding contains
  has_key-contains key [] = refl
  has_key-contains key ((k, r) ∷ st) =
      ap (λ b. if k == key then true else b) (has_key-contains key st)

  -- One record with a position and a time that is no datetime makes every round raise, whatever the
  -- other records are.
  pub republish_all-raised :
      (key : String) (r : Dict Json) (now : Fixed) (b : Bridge)
      → lookup key b.state ≡ some r
      → HasBadTime r
      → is_raised (republish_all writer cfg now b).0 ≡ true
  unfolding republish_all
  republish_all-raised key r now b h bad =
      publish_keys-raised key (map (λ e. e.0) b.state) now b.state b.offline_since b.queue
        (has_key-contains key b.state ∙ contains-lookup key b.state ∙ rw h)
        (rw h (event_for-raised key now r bad))
