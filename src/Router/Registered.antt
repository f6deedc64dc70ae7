-- ===== src/Router/Registered.antt =====
-- What a router answers for the handlers that were registered.
use meshcore_rpc_services.Prelude.{
  ◌≡◌, refl, sym, ◌∙◌, subst, Bool, Option, none, some, List, [], ◌∷◌, String, ◌==◌, eq_iff, All,
  find, arith, if◌then◌else◌, Bool-cases, Option-cases, inl, inr,
}
use meshcore_rpc_services.Prelude.Dict.{lookup, lookup-insert, contains-lookup}
use meshcore_rpc_services.Handlers.Protocol.{Handler}
use meshcore_rpc_services.Router.{Router, register, register_all, make, resolve}

-- The first handler of a type, after those that are registered already.
abbrev first_of_two : Option Handler → Option Handler → Option Handler
first_of_two none o = o
first_of_two (some h) o = some h

abbrev pub handles : String → Handler → Bool
handles t h = h.type == t

register-resolve :
    (h : Handler) (r r' : Router) (t : String)
    → register h r ≡ some r'
    → resolve t r' ≡ (if h.type == t then some h else resolve t r)
unfolding register resolve
register-resolve h r r' t e = ground (arith, lookup-insert h.type t h r)

register-fresh : (h : Handler) (r r' : Router) → register h r ≡ some r' → resolve h.type r ≡ none
unfolding register resolve
register-fresh h r r' e = ground (arith, contains-lookup h.type r)

register_all-none : (handlers : List Handler) → register_all handlers none ≡ none
unfolding register_all
register_all-none [] = refl
register_all-none (h ∷ handlers) = register_all-none handlers

registered_step :
    (h : Handler) (handlers : List Handler) (r r1 r' : Router) (t : String)
    → register h r ≡ some r1
    → resolve t r' ≡ first_of_two (resolve t r1) (find (handles t) handlers)
    → resolve t r' ≡ first_of_two (resolve t r) (find (handles t) (h ∷ handlers))
registered_step h handlers r r1 r' t made ih =
    ground (arith, register-resolve h r r1 t made, register-fresh h r r1 made, eq_iff h.type t)

resolve-register_all :
    (handlers : List Handler) (r r' : Router) (t : String)
    → register_all handlers (some r) ≡ some r'
    → resolve t r' ≡ first_of_two (resolve t r) (find (handles t) handlers)
unfolding register_all
resolve-register_all [] r r' t e = ground arith
resolve-register_all (h ∷ handlers) r r' t e = elim (Option-cases (register h r)) [
  | inl failed ↦ cc (register_all-none handlers, failed, e)
  | inr (r1, made) ↦
      registered_step h handlers r r1 r' t made
        (resolve-register_all handlers r1 r' t (rw made at e))
]

-- A router that was made answers for each type with the first handler of that type, and with none
-- where there is no such handler.
pub resolve-make :
    (handlers : List Handler) (router : Router) (t : String)
    → make handlers ≡ some router
    → resolve t router ≡ find (handles t) handlers
unfolding make resolve lookup
resolve-make handlers router t made = resolve-register_all handlers [] router t made

-- What `find` returns is one of the elements.
find-All :
    {A : Type 0} (Q : A → Type 0) (p : A → Bool) (xs : List A) (x : A)
    → All Q xs
    → find p xs ≡ some x
    → Q x
find-All Q p [] x all e = cc
find-All Q p (y ∷ ys) x all e = elim (Bool-cases (p y)) [
  | inl hit ↦ subst Q (ground (arith, hit)) all.0
  | inr miss ↦ find-All Q p ys x all.1 (rw miss at e)
]

-- Whatever a router that was made resolves to has the properties that all its handlers have.
pub resolve-All :
    (Q : Handler → Type 0) (handlers : List Handler) (router : Router) (t : String) (h : Handler)
    → make handlers ≡ some router
    → All Q handlers
    → resolve t router ≡ some h
    → Q h
resolve-All Q handlers router t h made all e =
    find-All Q (handles t) handlers h all (sym (resolve-make handlers router t made) ∙ e)
