-- ===== src/Tak/Bridge/Invariant.antt =====
-- What holds of the bridge whatever it does.
use meshcore_rpc_services.Prelude.{
  ◌≡◌, ◌≤◌, ◌&&◌, Bool, true, false, Option, none, some, List, [], ◌∷◌, String, arith, length, ◌==◌,
  eq_refl, if◌then◌else◌, Bool-cases, inl, inr, or_else, eq_iff, ◌∙◌,
}
use meshcore_rpc_services.Prelude.Int.{Fixed}
use meshcore_rpc_services.Prelude.Dict.{Dict, lookup, contains, insert, erase}
use meshcore_rpc_services.Prelude.Split.{ends_with}
use meshcore_rpc_services.Prelude.Keys.{
  IsDistinct, insert-IsDistinct, erase-IsDistinct, contains-insert, contains-erase,
}
use meshcore_rpc_services.Runtime.{Result, ok, err}
use meshcore_rpc_services.Topics
use meshcore_rpc_services.Value.{Json, null, bool, int, float, str, arr, obj}
use meshcore_rpc_services.Tak.NodeTopic.{base_key, node_prefix_slash, extract_node_id}
use meshcore_rpc_services.Tak.Sink.{queue_cap, send, send_all}
use meshcore_rpc_services.Tak.Sink.Recent.{send_all-keep_last}
use meshcore_rpc_services.Tak.Bridge.{
  Bridge, track, emit, enqueue, merge_state, update_offline_tracking,
}
use meshcore_rpc_services.Tak.Bridge.Messages.{ingest, located, stated}
use meshcore_rpc_services.Tak.Bridge.Heartbeat.{forget}
use text.Mathlib.Text.{starts_with}

-- Every key of the one dict is a key of the other.
abbrev pub Known : Dict Fixed → Dict (Dict Json) → Type 0
Known since state = (id : String) → contains id since ≡ true → contains id state ≡ true

-- Each node has one record and at most one offline time, only a node with a record has an offline
-- time, and the queue is within its bound.
pub record IsValid (b : Bridge) : Type 0 where
  pub state_distinct : IsDistinct b.state
  pub offline_distinct : IsDistinct b.offline_since
  pub offline_known : Known b.offline_since b.state
  pub queue_bound : length b.queue ≤ queue_cap

pub send-bound :
    (x : String) (q : List String) → length q ≤ queue_cap → length (send queue_cap x q) ≤ queue_cap
unfolding send_all
send-bound x q h = (send_all-keep_last queue_cap (omega arith) (x ∷ []) q h).1

enqueue-IsValid : (xml : String) (b : Bridge) → IsValid b → IsValid (enqueue xml b)
enqueue-IsValid xml b v = record {
  state_distinct = v.state_distinct;
  offline_distinct = v.offline_distinct;
  offline_known = v.offline_known;
  queue_bound = send-bound xml b.queue v.queue_bound;
}

pub emit-IsValid : (r : Result (Option String)) (b : Bridge) → IsValid b → IsValid (emit r b).1
emit-IsValid (ok none) b v = v
emit-IsValid (ok (some xml)) b v = enqueue-IsValid xml b v
emit-IsValid (err e) b v = v

insert-Known :
    (key : String) (r : Dict Json) (since : Dict Fixed) (state : Dict (Dict Json))
    → Known since state
    → Known since (insert key r state)
insert-Known key r since state known id h =
    ground (arith, contains-insert key id r state, known id h)

erase-Known :
    (id : String) (since : Dict Fixed) (state : Dict (Dict Json))
    → Known since state
    → Known (erase id since) (erase id state)
erase-Known id since state known j h =
    ground (arith, contains-erase id j since, contains-erase id j state, h, known j)

merge-IsValid :
    (key : String) (d : Dict Json) (kind : String) (now : Fixed) (b : Bridge)
    → IsValid b
    → IsValid (merge_state key d kind now b)
unfolding merge_state
merge-IsValid key d kind now b v = record {
  state_distinct = insert-IsDistinct key _ b.state v.state_distinct;
  offline_distinct = v.offline_distinct;
  offline_known = insert-Known key _ b.offline_since b.state v.offline_known;
  queue_bound = v.queue_bound;
}

-- What tracking does to the offline times of nodes with a record.
abbrev IsTracked : Dict Fixed → Dict (Dict Json) → Type 0
IsTracked since state = IsDistinct since × Known since state

erased-IsTracked :
    (id : String) (since : Dict Fixed) (state : Dict (Dict Json))
    → IsTracked since state
    → IsTracked (erase id since) state
erased-IsTracked id since state (distinct, known) = (
  erase-IsDistinct id since distinct,
  λ j h. known j (ground (arith, contains-erase id j since, h)),
)

noted-IsTracked :
    (id : String) (now : Fixed) (since : Dict Fixed) (state : Dict (Dict Json))
    → contains id state ≡ true
    → IsTracked since state
    → IsTracked (if contains id since then since else insert id now since) state
noted-IsTracked id now since state has (distinct, known) = elim (Bool-cases (contains id since)) [
  | inl there ↦ rw there (distinct, known)
  | inr new ↦ rw new (
    insert-IsDistinct id now since distinct,
    λ j h. ground (arith, contains-insert id j now since, h, known j, eq_iff id j, has),
  )
]

track-IsTracked :
    (o : Option Json) (id : String) (now : Fixed) (since : Dict Fixed) (state : Dict (Dict Json))
    → contains id state ≡ true
    → IsTracked since state
    → IsTracked (track o id now since) state
track-IsTracked none id now since state has t = t
track-IsTracked (some null) id now since state has t = t
track-IsTracked (some (bool true)) id now since state has t = erased-IsTracked id since state t
track-IsTracked (some (bool false)) id now since state has t =
    noted-IsTracked id now since state has t
track-IsTracked (some (int z)) id now since state has t = t
track-IsTracked (some (float x)) id now since state has t = t
track-IsTracked (some (str s)) id now since state has t = t
track-IsTracked (some (arr xs)) id now since state has t = t
track-IsTracked (some (obj fs)) id now since state has t = t

pub update_offline-IsValid :
    (id : String) (d : Dict Json) (now : Fixed) (b : Bridge)
    → contains id b.state ≡ true
    → IsValid b
    → IsValid (update_offline_tracking id d now b)
unfolding update_offline_tracking
update_offline-IsValid id d now b has v =
    let (distinct, known) =
      track-IsTracked (lookup "online" d) id now b.offline_since b.state has
        (v.offline_distinct, v.offline_known) in
    record {
      state_distinct = v.state_distinct;
      offline_distinct = distinct;
      offline_known = known;
      queue_bound = v.queue_bound;
    }

located-IsValid :
    (o : Option String) (d : Dict Json) (now : Fixed) (b : Bridge)
    → IsValid b
    → IsValid (located o d now b)
located-IsValid none d now b v = v
located-IsValid (some id) d now b v = merge-IsValid id d "node" now b v

stated-IsValid :
    (o : Option String) (d : Dict Json) (now : Fixed) (b : Bridge)
    → IsValid b
    → IsValid (stated o d now b)
unfolding merge_state
stated-IsValid none d now b v = v
stated-IsValid (some id) d now b v =
    update_offline-IsValid id d now _ (contains-insert id id _ b.state ∙ rw (eq_refl id))
      (merge-IsValid id d "node" now b v)

pub forget-IsValid : (id : String) (b : Bridge) → IsValid b → IsValid (forget id b)
unfolding forget
forget-IsValid id b v = record {
  state_distinct = erase-IsDistinct id b.state v.state_distinct;
  offline_distinct = erase-IsDistinct id b.offline_since v.offline_distinct;
  offline_known = erase-Known id b.offline_since b.state v.offline_known;
  queue_bound = v.queue_bound;
}

either-IsValid :
    (t : Bool) (o o' : Option Bridge) (b : Bridge)
    → IsValid (or_else o b)
    → IsValid (or_else o' b)
    → IsValid (or_else (if t then o else o') b)
either-IsValid true o o' b v v' = v
either-IsValid false o o' b v v' = v'

-- Every branch of the handler, by its topic.
pub ingest-IsValid :
    (topic : String) (d : Dict Json) (now : Fixed) (b : Bridge)
    → IsValid b
    → IsValid (or_else (ingest topic d now b) b)
unfolding ingest
ingest-IsValid topic d now b v =
    either-IsValid (topic == Topics.base_location) _ _ b (merge-IsValid base_key d "base" now b v) (
      either-IsValid (starts_with topic node_prefix_slash && ends_with topic "/location") _ _ b
        (located-IsValid (extract_node_id topic "/location") d now b v)
        (either-IsValid (starts_with topic node_prefix_slash && ends_with topic "/state") _ _ b
          (stated-IsValid (extract_node_id topic "/state") d now b v) v))
