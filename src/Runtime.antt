-- ===== src/Runtime.antt =====
-- Methods of the service as actions on its whole state. What was written before an exception stays
-- written, so the state comes back beside the exception too.
--
-- An `await` is where the environment acts: the call is performed, or it raises, or the deadline of
-- the running `asyncio.wait_for` passes. The environment's choices are a list of outcomes, which
-- each awaited call takes one from. A deadline that passes while a statement runs in its thread
-- cancels the handler, and the statement is performed nevertheless.
pub mod Keeps
pub mod Stable
pub mod Calls
pub mod Total
pub mod Runs
pub mod Yields
use meshcore_rpc_services.Prelude.{
  ℕ, Bool, true, false, Option, none, some, List, [], ◌∷◌, ◌++◌, String, if◌then◌else◌,
}
use meshcore_rpc_services.Prelude.Int.{ℤ, Fixed, ◌+ℤ◌}
use meshcore_rpc_services.Prelude.Dict.{Dict}
use meshcore_rpc_services.Errors.{RpcError}
use meshcore_rpc_services.Store.Rows.{Db}
use meshcore_rpc_services.Value.{Json}

-- An exception: `RpcError`, `asyncio.TimeoutError`, or any other by the name of its class.
pub data Exn : Type 0 where
  rpc_error : RpcError → Exn
  timeout_error : Exn
  crash : String → Exn

pub data Result (A : Type 0) : Type 0 where
  ok : A → Result A
  err : Exn → Result A

-- The time that an awaited call takes (the wall clock may be set back), and how it ends.
pub data Outcome : Type 0 where
  done late : Fixed → Outcome
  fault : Fixed → String → Outcome

-- A message handed to the broker, with its JSON payload.
pub record Message : Type 0 where
  pub topic : String
  pub payload : Json
  pub retain : Bool

-- An entry of `StateAggregator._last_radio`.
pub record Radio : Type 0 where
  pub rssi : Option ℤ
  pub snr : Option Fixed
  pub ts : Fixed

-- The cache of `MqttBus`.
pub record Snapshot : Type 0 where
  pub state : Json
  pub detail : Json
  pub since : Json
  pub snapped_at : Option Fixed

-- `Store`, `StateAggregator`, `MqttBus` and `PendingTracker` together, and the environment.
pub record World : Type 0 where
  pub db : Db
  pub last_radio : Dict Radio
  pub gateway : Snapshot
  pub connected : Bool
  pub published : List Message
  pub in_flight : ℕ
  -- a deadline is running
  pub armed : Bool
  pub clock : Fixed
  pub script : List Outcome

abbrev pub M : Type 0 → Type 0
M A = World → Result A × World

module _ {A : Type 0} where
  unfoldable pub pure : A → M A
  pure a w = (ok a, w)

  unfoldable pub raise : Exn → M A
  raise e w = (err e, w)

  unfoldable pub gets : (World → A) → M A
  gets f w = (ok (f w), w)

  -- `try: ... except Exception as e: ...`, the first half.
  unfoldable pub attempt : M A → M (Result A)
  attempt m w = let (r, w') = m w in (ok r, w')

  -- `try: ... finally: ...`, where the last part only changes the state.
  unfoldable pub finally : M A → (World → World) → M A
  finally m f w = let (r, w') = m w in (r, f w')

unfoldable pub modify : (World → World) → M Unit
modify f w = (ok tt, f w)

-- Time goes by on the clock.
abbrev pub pass : Fixed → World → World
pass t w = record w { clock = w.clock +ℤ t }

-- A value, or the exception for its absence.
unfoldable pub or_raise : {A : Type 0} → Option A → Exn → M A
unfolding pure raise
or_raise none e = raise e
or_raise (some a) e = pure a

module _ {A B : Type 0} where
  abbrev pub continue : Result A → (A → M B) → M B
  continue (ok a) f w = f a w
  continue (err e) f w = (err e, w)

  infixl 5 ◌>>=◌ ◌>>◌
  unfoldable pub ◌>>=◌ : M A → (A → M B) → M B
  ◌>>=◌ m f w = let (r, w') = m w in continue r f w'

  abbrev pub ◌>>◌ : M A → M B → M B
  m >> n = m >>= λ _. n

abbrev pub after : Fixed → List Outcome → World → World
after elapsed rest w = record w { clock = w.clock +ℤ elapsed; script = rest }

module _ {A : Type 0} where
  -- A deadline that is running interrupts the caller; the call goes on in its thread.
  abbrev interrupt : Bool → A → Result A
  interrupt true a = err timeout_error
  interrupt false a = ok a

  unfoldable pub step : List Outcome → (World → A × World) → World → Result A × World
  step [] call w = let (a, w') = call w in (ok a, w')
  step (done t ∷ rest) call w = let (a, w') = call (after t rest w) in (ok a, w')
  step (late t ∷ rest) call w = let (a, w') = call (after t rest w) in (interrupt w.armed a, w')
  step (fault t name ∷ rest) call w = (err (crash name), after t rest w)

  -- `await call`
  unfoldable pub perform : (World → A × World) → M A
  unfolding step
  perform call w = step w.script call w

-- `time.time()`
unfoldable pub time : M Fixed
unfolding gets
time = gets (λ w. w.clock)
