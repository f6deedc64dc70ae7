-- ===== src/Cli.antt =====
-- meshcore_rpc_services/cli.py and tak/cli.py: what the commands do with the configuration, the database
-- and the signals. Parsing the command line is click's, and the event loop asyncio's.
pub mod Purging
use meshcore_rpc_services.Prelude.{
  ℕ, Bool, true, false, Option, none, some, List, [], ◌∷◌, String, ◌==◌, format, show_nat, or_else,
  map, if◌then◌else◌,
}
use meshcore_rpc_services.Prelude.Int.{ℤ, pos, of_int, show_int}
use meshcore_rpc_services.Config.App.{AppConfig}
use meshcore_rpc_services.Retention.{make_sweeper, run_once}
use meshcore_rpc_services.Runtime.{Result, ok, err, Exn, crash, M, pure, attempt, or_raise, ◌>>=◌}

-- The fields of a log record that the format string names.
pub record LogRecord : Type 0 where
  pub request_id : Option String
  pub node_id : Option String
  pub rpc_type : Option String

abbrev filled : Option String → Option String
filled field = some (or_else field "-")

-- `_ContextFilter.filter`, which lets every record pass.
unfoldable pub filter_record : LogRecord → LogRecord
filter_record r = record {
  request_id = filled r.request_id;
  node_id = filled r.node_id;
  rpc_type = filled r.rpc_type;
}

-- How a command ends: it returns, or `SystemExit` with a code, or another exception.
pub data Exit : Type 0 where
  finished : Exit
  exited : ℕ → Exit
  failed : Exn → Exit

-- What is printed, and how the command ends.
pub record Outcome : Type 0 where
  pub printed : List String
  pub exit : Exit

abbrev pub stop_with : List String → Outcome
stop_with lines = record { printed = lines; exit = exited 1 }

-- An entry of `ValidationError.errors()`.
pub record Problem : Type 0 where
  pub loc : List String
  pub msg : String

-- How `AppConfig.load` ends.
pub data Loaded : Type 0 where
  loaded : AppConfig → Loaded
  yaml_error other_error : String → Loaded
  invalid : List Problem → Loaded

-- `"->".join(loc)`
abbrev arrows : List String → String
arrows [] = ""
arrows (s ∷ []) = s
arrows (s ∷ t ∷ rest) = format (s ∷ "->" ∷ arrows (t ∷ rest) ∷ [])

abbrev problem_line : Problem → String
problem_line p = format ("  " ∷ arrows p.loc ∷ ": " ∷ p.msg ∷ [])

abbrev path_text : Option String → String
path_text none = "None"
path_text (some path) = path

-- `_load_config`, and the command that goes on with the configuration.
unfoldable pub with_config : Option String → Loaded → (AppConfig → M Outcome) → M Outcome
unfolding format
with_config path (loaded cfg) go = go cfg
with_config path (yaml_error e) go = pure (
    stop_with (
      format ("Error: invalid YAML in " ∷ path_text path ∷ ":" ∷ []) ∷ format ("  " ∷ e ∷ []) ∷ []))
with_config path (invalid problems) go =
    pure (stop_with ("Error: invalid configuration:" ∷ map problem_line problems))
with_config path (other_error e) go =
    pure (stop_with (format ("Error loading config: " ∷ e ∷ []) ∷ []))

-- How `Store(db_path)` ends.
pub data Opened : Type 0 where
  opened : Opened
  not_opened database_error : String → Opened

-- `_open_store`, and what goes on with the store; the path is as Python's `repr` shows it.
unfoldable pub with_store : String → Opened → M Outcome → M Outcome
unfolding format
with_store shown_path opened go = go
with_store shown_path (not_opened e) go =
    pure
      (stop_with (format ("Error: could not open database at " ∷ shown_path ∷ ": " ∷ e ∷ []) ∷ []))
with_store shown_path (database_error e) go =
    pure (stop_with (format ("Error: database error: " ∷ e ∷ []) ∷ []))

abbrev pub say : String → Outcome
say line = record { printed = line ∷ []; exit = finished }

-- `initdb`: opening the store creates the schema.
unfoldable pub initdb : (String → String) → Option String → Loaded → Opened → M Outcome
unfolding with_config with_store format
initdb repr path config store = with_config path config (λ cfg.
    with_store (repr cfg.service.db_path) store
      (pure (say (format ("Initialized SQLite DB at " ∷ cfg.service.db_path ∷ [])))))

abbrev pub purged : ℕ → ℤ → String
unfolding format show_nat show_int
purged deleted days =
    format ("Purged " ∷ show_nat deleted ∷ " request rows older than " ∷ show_int days ∷ "d." ∷ [])

abbrev pub effective_days : Option ℤ → AppConfig → ℤ
effective_days none cfg = cfg.service.retention.days
effective_days (some days) cfg = days

-- The `try` block of `purge`.
unfoldable pub sweep : ℤ → M Outcome
sweep days = do
  sweeper ← or_raise (make_sweeper days (of_int (pos 3600))) (crash "ValueError")
  deleted ← run_once sweeper
  pure (say (purged deleted days))

abbrev pub or_failed : Result Outcome → Outcome
or_failed (ok o) = o
or_failed (err e) = record { printed = []; exit = failed e }

-- `purge`
unfoldable pub purge : (String → String) → Option String → Option ℤ → Loaded → Opened → M Outcome
unfolding with_config with_store sweep
purge repr path days config store = with_config path config (λ cfg.
    with_store (repr cfg.service.db_path) store
      (do r ← attempt (sweep (effective_days days cfg)); pure (or_failed r)))

-- Which of the two tasks of `run` is done first: that of the service (also when both are), or the
-- wait for a signal; and how the service's task ends, after a signal by cancelling it.
pub data First : Type 0 where
  service_done signalled : Result Unit → First

abbrev pub exit_of : Result Unit → Exit
exit_of (ok u) = finished
exit_of (err e) = failed e

abbrev pub uncancelled : Result Unit → Exit
uncancelled (ok u) = finished
uncancelled (err (crash name)) = if name == "CancelledError" then finished else failed (crash name)
uncancelled (err e) = failed e

-- The end of `_amain` in `run`.
unfoldable pub run_exit : First → Exit
run_exit (service_done r) = exit_of r
run_exit (signalled r) = uncancelled r

-- How the bridge's task ends after `bridge.stop()`: within 5 s, or by being cancelled then.
pub data BridgeEnd : Type 0 where
  in_time after_cancel : Result Unit → BridgeEnd

-- The end of `_amain` in tak/cli.py, after a signal.
unfoldable pub bridge_exit : BridgeEnd → Exit
bridge_exit (in_time r) = exit_of r
bridge_exit (after_cancel r) = uncancelled r
