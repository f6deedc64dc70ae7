-- ===== src/Examples.antt =====
-- Concrete values for the tests: a platform on whole numbers, a decoder, and a service.
pub mod Pipeline
pub mod Parts
pub mod Tak
pub mod Storage
pub mod Reports
pub mod Running
pub mod Exchange
pub mod Purge
use meshcore_rpc_services.Prelude.{
  ℕ, zero, suc, ◌+◌, ◌*◌, ◌/◌, ◌≡◌, ◌≢◌, refl, ap, Bool, true, false, Option, none, some, or_else,
  List, [], ◌∷◌, String, ◌==◌, if◌then◌else◌, arith, eq_iff, sym, inr,
}
use native.Mathlib.Nat.{mul_comm}
use meshcore_rpc_services.Prelude.Int.{
  ℤ, pos, negsuc, ◌+ℤ◌, ◌-ℤ◌, pos_part, neg_part, Fixed, of_int, trunc,
}
use meshcore_rpc_services.Prelude.Dict.{contains, insert}
use meshcore_rpc_services.Geo.{Platform}
use meshcore_rpc_services.Handlers.{default_handlers}
use meshcore_rpc_services.Retention.{RetentionSweeper}
use meshcore_rpc_services.Router
use meshcore_rpc_services.Router.{Router}
use meshcore_rpc_services.Runtime.{World, Outcome, done, late}
use meshcore_rpc_services.Schemas.{Request}
use meshcore_rpc_services.Geo.Symmetry.{SignLaws}
use meshcore_rpc_services.Store.Invariant.{IsValid}
use meshcore_rpc_services.Transport.Adapter.Cases.{ShowsTruthy}
use meshcore_rpc_services.Store.Rows.{Db, RequestRow, EventRow, empty}
use meshcore_rpc_services.Transport.Adapter.{Codec}
use meshcore_rpc_services.Value.{Json, null, bool, int, float, str, arr, obj, end, field}

abbrev pub neg_ℤ : ℤ → ℤ
neg_ℤ (pos zero) = pos 0
neg_ℤ (pos (suc n)) = negsuc n
neg_ℤ (negsuc n) = pos (suc n)

-- Half of a number, toward zero.
abbrev pub half : ℤ → ℤ
half (pos n) = pos (n / 2)
half (negsuc n) = neg_ℤ (pos (suc n / 2))

abbrev pub square : ℤ → ℤ
square a = pos ((pos_part a + neg_part a) * (pos_part a + neg_part a))

-- Whole numbers in place of floats, with the identity for the odd functions.
abbrev pub platform : Platform
platform = record {
  Real = ℤ;
  real = trunc;
  add = ◌+ℤ◌;
  sub = ◌-ℤ◌;
  mul = λ a b. pos (pos_part a * pos_part b);
  div = λ a b. half a;
  pow = λ a b. square a;
  rem = λ a b. a;
  radians = λ a. a;
  degrees = λ a. a;
  sin = λ a. a;
  cos = λ a. pos 1;
  asin = λ a. a;
  sqrt = λ a. a;
  atan2 = λ a b. a;
  round = λ a. a;
  parse_float = λ s. none;
  iso_utc = λ t. "1970-01-01T00:00:00Z";
}

-- The payload of a valid request, and of one that lacks its type.
abbrev pub ping_json : Json
ping_json = obj (field "id" (str "r1") (field "type" (str "ping") (field "from" (str "n1") end)))

abbrev pub untyped_json : Json
untyped_json = obj (field "id" (str "r1") (field "from" (str "n1") end))

abbrev pub codec : Codec
codec = record {
  loads = λ s.
      if s == "ping" then some ping_json else if s == "untyped" then some untyped_json else none;
  lax_int = λ x. elim x [ int z ↦ some z | _ ↦ none ];
  py_str = λ x. elim x [ str s ↦ s | _ ↦ "None" ];
}

abbrev pub ping_request : Request
ping_request = record { v = pos 1; id = "r1"; type = "ping"; from_ = "n1"; ttl = none; args = [] }

abbrev pub row_of : String → String → Option Fixed → Option String → RequestRow
row_of id node_id completed_at final_state = record {
  id = id;
  node_id = node_id;
  type = "ping";
  ttl_s = pos 30;
  received_at = pos 0;
  completed_at = completed_at;
  final_state = final_state;
  error_code = none;
  request_json = null;
  response_json = none;
}

abbrev pub event_of : String → EventRow
event_of id = record {
  request_id = id;
  node_id = "n1";
  state = "received";
  detail = none;
  ts = pos 0;
}

-- A finished request and a pending one that share their id, and a third.
abbrev pub db : Db
db = record empty {
  requests =
      row_of "r0" "n1" (some (pos 5)) (some "completed_ok")
      ∷ row_of "r0" "n2" none none
      ∷ row_of "r9" "n1" (some (pos 9)) (some "completed_error")
      ∷ [];
  request_events = event_of "r0" ∷ event_of "r9" ∷ [];
  nodes = ("n1", pos 7) ∷ [];
}

-- A connected service, in which the deadline of the first handler passes.
abbrev pub world : World
world = record {
  db = db;
  last_radio = [];
  gateway = record { state = null; detail = null; since = null; snapped_at = none };
  connected = true;
  published = [];
  in_flight = 2;
  armed = false;
  clock = pos 100;
  script =
      done (pos 1) ∷ done (pos 1) ∷ late (pos 2) ∷ done (pos 0) ∷ late (pos 40) ∷ done (pos 1) ∷ [];
}

abbrev pub router : Router
unfolding default_handlers Router.make
router = or_else (Router.make (default_handlers platform)) []

abbrev pub sweeper : RetentionSweeper
sweeper = record { days = 30; interval_s = of_int (pos 3600) }

pub router_made : Router.make (default_handlers platform) ≡ some router
unfolding default_handlers Router.make contains insert
router_made = refl

pub db-IsValid : IsValid db
db-IsValid = record {
  rows_valid = (
    record { known_final = refl; completed_final = refl },
    (
      record { known_final = refl; completed_final = refl },
      (record { known_final = refl; completed_final = refl }, tt),
    ),
  );
  keys_unique = (refl, (refl, (refl, tt)));
}

abbrev absent : String
absent = "None"

shown_none : absent ≢ ""
shown_none e = cc

pub codec-ShowsTruthy : ShowsTruthy codec
codec-ShowsTruthy null h = cc
codec-ShowsTruthy (bool b) h = shown_none
codec-ShowsTruthy (int z) h = shown_none
codec-ShowsTruthy (float x) h = shown_none
codec-ShowsTruthy (str s) h = λ e. ground (arith, eq_iff s "", h, e)
codec-ShowsTruthy (arr xs) h = shown_none
codec-ShowsTruthy (obj fs) h = shown_none

neg_neg : (a : ℤ) → neg_ℤ (neg_ℤ a) ≡ a
neg_neg a = ground arith

half_neg : (a : ℤ) → half (neg_ℤ a) ≡ neg_ℤ (half a)
half_neg (pos zero) = refl
half_neg (pos (suc n)) = refl
half_neg (negsuc n) = sym (neg_neg (pos (suc n / 2)))

magnitude_neg : (a : ℤ) → pos_part (neg_ℤ a) + neg_part (neg_ℤ a) ≡ pos_part a + neg_part a
magnitude_neg a = ground arith

square_neg : (a : ℤ) → square (neg_ℤ a) ≡ square a
square_neg a = rw (magnitude_neg a) refl

sub_swap : (a b : ℤ) → a -ℤ b ≡ neg_ℤ (b -ℤ a)
unfolding ◌-ℤ◌
sub_swap a b = ground arith

pub sign_laws : SignLaws platform
sign_laws = record {
  neg = neg_ℤ;
  neg-sub = λ a b. inr (sub_swap a b);
  radians-neg = λ a. refl;
  div-neg = λ a b. half_neg a;
  sin-neg = λ a. refl;
  square-neg = square_neg;
  mul_comm = λ a b. ap pos (mul_comm (pos_part a) (pos_part b));
}
