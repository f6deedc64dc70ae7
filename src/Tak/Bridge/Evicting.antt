-- ===== src/Tak/Bridge/Evicting.antt =====
-- The heartbeat evicts the nodes that are offline for the threshold, and no others.
use meshcore_rpc_services.Prelude.{
  ◌≡◌, refl, ap, ◌∙◌, Bool, true, false, not, ◌&&◌, Option, none, some, List, [], ◌∷◌, String,
  arith, ◌==◌, if◌then◌else◌, Bool-cases, inl, inr,
}
use meshcore_rpc_services.Prelude.Int.{pos, Fixed, leb_ℤ}
use meshcore_rpc_services.Prelude.Dict.{Dict, lookup, lookup-erase}
use meshcore_rpc_services.Prelude.Keys.{IsDistinct, has_key, has_key-filter}
use meshcore_rpc_services.Value.{Json, number?}
use meshcore_rpc_services.Tak.Cot.{Writer}
use meshcore_rpc_services.Tak.Bridge.{Bridge, TakBridgeConfig}
use meshcore_rpc_services.Tak.Bridge.Heartbeat.{
  is_overdue, drop_at, publish_drop, forget, evict, to_evict, evict_long_offline,
}

if_erased :
    {V : Type 0} (id k : String) (gone : Bool) (o o' : Option V)
    → o ≡ (if k == id then none else o')
    → (if gone then none else o) ≡ (if (if k == id then true else gone) then none else o')
if_erased id k gone o o' h = ground (arith, h)

module _ (writer : Writer) (cfg : TakBridgeConfig) where
  drop_at_kept :
      (node_id : String) (now : Fixed) (lat lon : Option Fixed) (b : Bridge)
      → ((drop_at writer cfg node_id now lat lon b).state ≡ b.state)
        × ((drop_at writer cfg node_id now lat lon b).offline_since ≡ b.offline_since)
  drop_at_kept node_id now (some lat) (some lon) b = (refl, refl)
  drop_at_kept node_id now (some lat) none b = (refl, refl)
  drop_at_kept node_id now none lon b = (refl, refl)

  pub publish_drop_kept :
      (node_id : String) (now : Fixed) (r : Option (Dict Json)) (b : Bridge)
      → ((publish_drop writer cfg node_id now r b).state ≡ b.state)
        × ((publish_drop writer cfg node_id now r b).offline_since ≡ b.offline_since)
  publish_drop_kept node_id now none b = (refl, refl)
  publish_drop_kept node_id now (some r) b =
      drop_at_kept node_id now (number? (lookup "lat" r)) (number? (lookup "lon" r)) b

  lookup-evict :
      (id : String) (ids : List String) (now : Fixed) (b : Bridge)
      → (lookup id (evict writer cfg ids now b).state
          ≡ (if has_key id ids then none else lookup id b.state))
        × (lookup id (evict writer cfg ids now b).offline_since
            ≡ (if has_key id ids then none else lookup id b.offline_since))
  unfolding evict forget
  lookup-evict id [] now b = (refl, refl)
  lookup-evict id (k ∷ ids) now b =
      let b' = publish_drop writer cfg k now (lookup k b.state) b in
      let (first, second) = lookup-evict id ids now (forget k b') in
      let (kept, kept') = publish_drop_kept k now (lookup k b.state) b in
      (
        first ∙ if_erased id k (has_key id ids) _ _ (lookup-erase k id b'.state ∙ rw kept),
        second
            ∙ if_erased id k (has_key id ids) _ _ (lookup-erase k id b'.offline_since ∙ rw kept'),
      )

  -- The node is known to be offline, and has been for the threshold, which is not zero.
  abbrev pub is_long_offline : Option Fixed → Fixed → Bool
  is_long_offline none now = false
  is_long_offline (some since) now =
      not (leb_ℤ cfg.remove_after_offline_s (pos 0))
      && is_overdue cfg.remove_after_offline_s now since

  stays :
      (o : Option Fixed) (now : Fixed)
      → leb_ℤ cfg.remove_after_offline_s (pos 0) ≡ true
      → is_long_offline o now ≡ false
  stays none now off = refl
  stays (some since) now off = rw off

  goes :
      (o : Option Fixed) (now : Fixed)
      → leb_ℤ cfg.remove_after_offline_s (pos 0) ≡ false
      → (elim o [ none ↦ false | some since ↦ is_overdue cfg.remove_after_offline_s now since ])
        ≡ is_long_offline o now
  goes none now on = refl
  goes (some since) now on = rw on

  -- Where no node has two offline times, a round of eviction removes a node's record and its
  -- offline time exactly if the node has been offline for the threshold, and leaves those of all
  -- other nodes as they are; with a threshold of zero or less it removes nothing.
  pub lookup-evict_long_offline :
      (id : String) (now : Fixed) (b : Bridge)
      → IsDistinct b.offline_since
      → (lookup id (evict_long_offline writer cfg now b).state
          ≡ (if is_long_offline (lookup id b.offline_since) now then none else lookup id b.state))
        × (lookup id (evict_long_offline writer cfg now b).offline_since ≡ (
            if is_long_offline (lookup id b.offline_since) now
            then none
            else lookup id b.offline_since))
  unfolding evict_long_offline
  lookup-evict_long_offline id now b h =
      elim (Bool-cases (leb_ℤ cfg.remove_after_offline_s (pos 0))) [
        | inl off ↦ rw (off, stays (lookup id b.offline_since) now off) (refl, refl)
        | inr on ↦
            let ids = to_evict writer cfg now b.offline_since in
            let gone =
              has_key-filter (is_overdue cfg.remove_after_offline_s now) id b.offline_since h
              ∙ goes (lookup id b.offline_since) now on in
            let (first, second) = lookup-evict id ids now b in
            rw on (
              first ∙ ap (λ g. if g then none else lookup id b.state) gone,
              second ∙ ap (λ g. if g then none else lookup id b.offline_since) gone,
            )
      ]
