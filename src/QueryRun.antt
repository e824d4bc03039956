-- ===== src/QueryRun.antt =====
-- Runs of SQL in components/query/query-tab.tsx: the guard, the token of the last run, and what becomes
-- of the answers. Times are left out.
mod Tests
pub mod Explain
pub mod Late
pub mod Running
use basemaster.Base.{
  ℕ, zero, suc, ◌+◌, String, Bool, true, false, not, ◌||◌, Option, none, some, List, [], ◌∷◌, ◌++◌,
  any, filter, find, ltb, ◌==◌, str_eq, if◌then◌else◌,
}
use basemaster.Base.Text.{Text, codes, has_ink}
use basemaster.Sql.Segments.{SqlSegment}
use basemaster.Sql.Cursor.{statement_at_cursor}
use basemaster.Sql.Dangerous.Detect.{DangerousStatement, detect_dangerous_statements}

-- One result of a batch, as far as it is read here.
pub data RunResult : Type 0 where
  select error : RunResult
  modify : (rows_affected : ℕ) → RunResult

-- The views that a run begins with.
pub data ResultView : Type 0 where
  result_view : ℕ → ResultView
  in_summary : ResultView

-- The states of the tab, less that of EXPLAIN.
pub data RunState : Type 0 where
  idle running : RunState
  results : List RunResult → ResultView → RunState
  failed : Text → RunState

-- An entry of the query history.
pub record HistoryEntry : Type 0 where
  pub sql : Text
  pub schema : Option String
  pub rows_affected : Option ℕ
  pub success : Bool
  pub error_msg : Option Text

-- A run that awaits an answer.
pub record Flight : Type 0 where
  pub token : ℕ
  pub request_id : String
  pub sql : Text
  pub schema : Option String

-- The tab, with the runs that await an answer, what went to the history, and the requests cancelled.
pub record RunTab : Type 0 where
  pub run_token : ℕ
  pub run_request_id : Option String
  pub run_state : RunState
  pub in_flight : List Flight
  pub history : List HistoryEntry
  pub cancelled : List String

abbrev has_risky : List DangerousStatement → Bool
has_risky [] = false
has_risky (d ∷ risky) = true

-- What lets a run begin: the user's preference, no dangerous statement, or the user's answer.
unfoldable pub passes_guard : Bool → Bool → Text → Bool
unfolding detect_dangerous_statements
passes_guard skip_guard confirmed sql =
    skip_guard || not (has_risky (detect_dangerous_statements sql)) || confirmed

-- Up to the first await.
unfoldable pub run_sql : Bool → Bool → String → Text → Option String → RunTab → RunTab
unfolding passes_guard
run_sql skip_guard confirmed request_id sql schema t =
    if passes_guard skip_guard confirmed sql
    then record t {
      run_token = t.run_token + 1;
      run_request_id = some request_id;
      run_state = running;
      in_flight =
          record { token = t.run_token + 1; request_id = request_id; sql = sql; schema = schema }
          ∷ t.in_flight;
    }
    else t

abbrev pub cleared : String → Option String → Option String
cleared request_id none = none
cleared request_id (some current) = if str_eq current request_id then none else some current

-- The run is over: it awaits no answer any more, and the `finally` block.
unfoldable pub end_run : Flight → RunTab → RunTab
end_run f t = record t {
  run_request_id = cleared f.request_id t.run_request_id;
  in_flight = filter (λ g. not (g.token == f.token)) t.in_flight;
}

unfoldable pub total_affected : List RunResult → ℕ
total_affected [] = 0
total_affected (modify n ∷ batch) = n + total_affected batch
total_affected (_ ∷ batch) = total_affected batch

abbrev pub first_view : List RunResult → ResultView
first_view [] = in_summary
first_view (r ∷ batch) = result_view 0

abbrev pub some_affected : ℕ → Option ℕ
some_affected zero = none
some_affected (suc n) = some (suc n)

unfoldable pub run_succeeded : Flight → List RunResult → RunTab → RunTab
unfolding total_affected
run_succeeded f batch t = record t {
  run_state = results batch (first_view batch);
  history =
      record {
        sql = f.sql;
        schema = f.schema;
        rows_affected = some_affected (total_affected batch);
        success = true;
        error_msg = none;
      }
      ∷ t.history;
}

unfoldable pub run_thrown : Flight → Text → RunTab → RunTab
run_thrown f message t = record t {
  run_state = failed message;
  history =
      record {
        sql = f.sql;
        schema = f.schema;
        rows_affected = none;
        success = false;
        error_msg = some message;
      }
      ∷ t.history;
}

-- What a run gets: the batch, or what opening the connection or running the SQL throws.
pub data RunOutcome : Type 0 where
  answered : List RunResult → RunOutcome
  throws : Text → RunOutcome

abbrev pub run_settled : Flight → RunOutcome → RunTab → RunTab
run_settled f (answered batch) t = run_succeeded f batch t
run_settled f (throws message) t = run_thrown f message t

-- The answer of a run that is not the last one is dropped.
unfoldable pub receive : Flight → RunOutcome → RunTab → RunTab
unfolding run_succeeded run_thrown end_run
receive f outcome t = end_run f (if t.run_token == f.token then run_settled f outcome t else t)

abbrev pub cancel_query : Option String → List String → List String
cancel_query none cancelled = cancelled
cancel_query (some request_id) cancelled = request_id ∷ cancelled

unfoldable pub handle_stop : Text → RunTab → RunTab
handle_stop message t = record t {
  cancelled = cancel_query t.run_request_id t.cancelled;
  run_token = t.run_token + 1;
  run_request_id = none;
  run_state = failed message;
}

abbrev pub statement_or_all : Text → Option SqlSegment → Text
statement_or_all sql none = sql
statement_or_all sql (some seg) = if has_ink seg.sql then seg.sql else sql

-- The SQL that `handleRunStatement` runs.
unfoldable pub statement_to_run : Text → ℕ → Text
unfolding statement_at_cursor has_ink
statement_to_run sql cursor = statement_or_all sql (statement_at_cursor sql cursor)
