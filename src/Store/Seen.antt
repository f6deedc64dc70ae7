-- ===== src/Store/Seen.antt =====
-- The registry of nodes only moves forward.
use meshcore_rpc_services.Prelude.{
  ◌≡◌, refl, some, String, ◌==◌, eq_iff, arith, if◌then◌else◌, Bool-cases, inl, inr,
}
use meshcore_rpc_services.Prelude.Int.{Fixed, ◌≤ℤ◌, max_ℤ}
use meshcore_rpc_services.Prelude.Dict.{lookup-insert}
use meshcore_rpc_services.Store.Rows.{Db}
use meshcore_rpc_services.Store.Nodes.{latest, mark_node_seen, get_last_seen}

-- The time of a node after it was marked, and that of every other node.
pub get_last_seen-mark_node_seen :
    (node_id other : String) (ts : Fixed) (db : Db)
    → get_last_seen other (mark_node_seen node_id ts db) ≡ (
        if node_id == other
        then some (latest (get_last_seen node_id db) ts)
        else get_last_seen other db)
unfolding get_last_seen mark_node_seen
get_last_seen-mark_node_seen node_id other ts db = lookup-insert node_id other _ db.nodes

max_bounds : (a b : Fixed) → a ≤ℤ max_ℤ a b
max_bounds a b = ground arith

-- Marking a node as seen never takes the stored time of any node back: a node that was known stays
-- known, at the same time or a later one.
pub get_last_seen_mono :
    (node_id other : String) (ts : Fixed) (db : Db) (before : Fixed)
    → get_last_seen other db ≡ some before
    → (now : Fixed) × (get_last_seen other (mark_node_seen node_id ts db) ≡ some now)
      × (before ≤ℤ now)
get_last_seen_mono node_id other ts db before known = elim (Bool-cases (node_id == other)) [
  | inl same ↦
      let here : get_last_seen node_id db ≡ some before =
        rw ((eq_iff node_id other).0 same) known in
      (
        max_ℤ before ts,
        rw (get_last_seen-mark_node_seen node_id other ts db, same, here) refl,
        max_bounds before ts,
      )
  | inr apart ↦
      (before, rw (get_last_seen-mark_node_seen node_id other ts db, apart) known, ground arith)
]
