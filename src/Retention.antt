-- ===== src/Retention.antt =====
-- meshcore_rpc_services/retention.py: the periodic sweep.
use meshcore_rpc_services.Prelude.{
  ℕ, ◌*◌, ◌||◌, Option, none, some, List, [], ◌∷◌, ◌==◌, if◌then◌else◌,
}
use meshcore_rpc_services.Prelude.Int.{ℤ, pos, Fixed, of_int, ltb_ℤ, ◌-ℤ◌}
use meshcore_rpc_services.Runtime.{
  Result, ok, err, crash, M, pure, modify, pass, attempt, time, ◌>>=◌, ◌>>◌,
}
use meshcore_rpc_services.Runtime.Calls.{purge_before}

abbrev pub seconds_per_day : ℕ
seconds_per_day = 86400

pub record RetentionSweeper : Type 0 where
  pub days : ℕ
  pub interval_s : Fixed

-- `RetentionSweeper(...)`; `none` stands for the ValueError.
unfoldable pub make_sweeper : ℤ → Fixed → Option RetentionSweeper
make_sweeper (pos days) interval_s =
    if ltb_ℤ (pos days) (pos 1) || ltb_ℤ interval_s (of_int (pos 1))
    then none
    else some (record { days = days; interval_s = interval_s })
make_sweeper _ interval_s = none

abbrev deleted_or_zero : Result ℕ → ℕ
deleted_or_zero (ok deleted) = deleted
deleted_or_zero (err e) = 0

-- `run_once`: a sweep that fails is logged and counts as nothing deleted.
unfoldable pub run_once : RetentionSweeper → M ℕ
run_once sweeper = do
  now ← time
  deleted ← attempt (purge_before (now -ℤ of_int (pos (sweeper.days * seconds_per_day))))
  pure (deleted_or_zero deleted)

-- `_run`, until its task is cancelled: the number that each sweep deleted. A sleep is the time on the
-- clock from its start to its end.
unfoldable pub run : RetentionSweeper → List Fixed → M (List ℕ)
run sweeper [] = do deleted ← run_once sweeper; pure (deleted ∷ [])
run sweeper (sleep ∷ sleeps) = do
  deleted ← run_once sweeper
  modify (pass sleep)
  rest ← run sweeper sleeps
  pure (deleted ∷ rest)

-- A task, by the way in which it ends once it is cancelled.
abbrev pub Task : Type 0
Task = Result Unit

-- `start`
abbrev pub start : Task → Option Task → Option Task
start task none = some task
start task (some running) = some running

-- What awaiting a cancelled task raises.
abbrev awaited : Task → Result Unit
awaited (err (crash name)) = if name == "CancelledError" then ok tt else err (crash name)
awaited task = task

abbrev cleared : Result Unit → Option Task → Result Unit × Option Task
cleared (ok u) task = (ok u, none)
cleared (err e) task = (err e, task)

-- `stop`: the task stays where awaiting it raises.
abbrev pub stop : Option Task → Result Unit × Option Task
stop none = (ok tt, none)
stop (some task) = cleared (awaited task) (some task)
