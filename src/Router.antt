-- ===== src/Router.antt =====
-- meshcore_rpc_services/router.py: request types to handlers.
pub mod Registered
use Prim.Native.String.{compare}
use Prim.Native.Nat.{Ordering}
use meshcore_rpc_services.Prelude.{
  Bool, true, false, Option, none, some, List, [], ◌∷◌, String, ◌==◌, if◌then◌else◌,
}
use meshcore_rpc_services.Prelude.Dict.{Dict, lookup, contains, insert}
use meshcore_rpc_services.Handlers.Protocol.{Handler}

abbrev pub Router : Type 0
Router = Dict Handler

-- `none` stands for the ValueError on a type that is taken.
unfoldable pub register : Handler → Router → Option Router
register handler router =
    if contains handler.type router then none else some (insert handler.type handler router)

abbrev register_into : Handler → Option Router → Option Router
register_into handler none = none
register_into handler (some router) = register handler router

-- `Router(handlers)`, from the handlers that are left and what is registered.
unfoldable pub register_all : List Handler → Option Router → Option Router
register_all [] made = made
register_all (h ∷ handlers) made = register_all handlers (register_into h made)

unfoldable pub make : List Handler → Option Router
unfolding register_all register
make handlers = register_all handlers (some [])

unfoldable pub resolve : String → Router → Option Handler
resolve request_type router = lookup request_type router

abbrev comes_first : String → String → Bool
comes_first a b = elim (compare a b) [ Ordering.gt ↦ false | _ ↦ true ]

insert_sorted : String → List String → List String
insert_sorted s [] = s ∷ []
insert_sorted s (t ∷ rest) = if comes_first s t then s ∷ t ∷ rest else t ∷ insert_sorted s rest

-- `sorted(self._handlers.keys())`
unfoldable pub types : Router → List String
unfolding insert_sorted
types [] = []
types ((k, h) ∷ router) = insert_sorted k (types router)
