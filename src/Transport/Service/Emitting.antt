-- ===== src/Transport/Service/Emitting.antt =====
-- What the emitter of the service keeps.
use meshcore_rpc_services.Prelude.{◌≡◌, List, [], ◌∷◌, ◌++◌, String}
use meshcore_rpc_services.Prelude.Int.{Fixed}
use meshcore_rpc_services.Runtime.{World, Outcome, Message, after}
use meshcore_rpc_services.Runtime.Calls.{publish, send}
use meshcore_rpc_services.Runtime.Keeps.{
  Keeps, Keeps-bind, Keeps-perform, Keeps-or_raise, Keeps-gets, Keeps-if, Keeps-raise,
}
use meshcore_rpc_services.Schemas.{Response}
use meshcore_rpc_services.Transport.Service.{emit}

-- The emitter keeps every predicate that does not depend on what was published.
pub Keeps-emit :
    {P : World → Type 0}
    → ((w : World) (t : Fixed) (o : Outcome) (rest : List Outcome)
        → w.script ≡ o ∷ rest
        → P w
        → P (after t rest w))
    → ((w : World) (m : Message) → P w → P (record w { published = w.published ++ m ∷ [] }))
    → (node_id : String) (r : Response) → Keeps P (emit node_id r)
unfolding emit publish send
Keeps-emit tick sent node_id r = Keeps-bind _ _ (Keeps-or_raise _ _) (λ topic.
    Keeps-bind _ _ (Keeps-gets _) (λ connected.
      Keeps-if connected _ _ (Keeps-perform _ tick (λ w h. sent w _ h)) (Keeps-raise _)))
