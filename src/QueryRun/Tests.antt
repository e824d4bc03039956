-- ===== src/QueryRun/Tests.antt =====
-- Runs of SQL, and the theorems at concrete inputs.
use basemaster.Base.{◌≡◌, refl, true, false, none, some, [], ◌∷◌, arith}
use basemaster.Base.Text.{codes, has_ink, trim}
use basemaster.Sql.Dangerous.Statements.{split_statements, strip_comments}
use basemaster.Sql.Dangerous.Detect.{reports_from, report, leading, contains_word}
use basemaster.QueryRun.{
  RunTab, idle, failed, Flight, answered, modify, run_sql, receive, handle_stop,
}
use basemaster.Types.{string}
use basemaster.QueryRun.Explain.{explain_sql, extract_explain_json_text}
use basemaster.QueryRun.Late.{receive_all, receive_all-handle_stop}
use basemaster.QueryRun.Running.{IsValid, here, next, runs, receives, tab-Reach-IsValid}

abbrev fresh_tab : RunTab
fresh_tab = record {
  run_token = 0;
  run_request_id = none;
  run_state = idle;
  in_flight = [];
  history = [];
  cancelled = [];
}

abbrev first : Flight
first = record { token = 1; request_id = "r1"; sql = codes "SELECT 1"; schema = none }

abbrev started : RunTab
started = run_sql true false "r1" (codes "SELECT 1") none fresh_tab

receive_all-handle_stop_example :
    ((receive_all
        ((first, answered (modify 3 ∷ [])) ∷ [])
        (handle_stop (codes "stopped") started)).run_state
      ≡ failed (codes "stopped"))
    × ((receive_all
          ((first, answered (modify 3 ∷ [])) ∷ [])
          (handle_stop (codes "stopped") started)).history
        ≡ started.history)
    × ((receive_all
          ((first, answered (modify 3 ∷ [])) ∷ [])
          (handle_stop (codes "stopped") started)).run_request_id
        ≡ none)
unfolding run_sql
receive_all-handle_stop_example =
    receive_all-handle_stop (codes "stopped") started ((first, answered (modify 3 ∷ [])) ∷ [])
      (omega arith, tt)

fresh_tab-IsValid : IsValid fresh_tab
fresh_tab-IsValid = record { begun = tt; shown = refl }

tab-Reach-IsValid_example : IsValid (receive first (answered (modify 3 ∷ [])) started)
tab-Reach-IsValid_example = tab-Reach-IsValid fresh_tab-IsValid (
    next (next here (runs true false "r1" (codes "SELECT 1") none))
      (receives first (answered (modify 3 ∷ []))))

-- A guarded run without the user's consent does nothing.
guarded : run_sql false false "r1" (codes "DELETE FROM t") none fresh_tab ≡ fresh_tab
unfolding run_sql reports_from split_statements has_ink report leading trim strip_comments
    contains_word
guarded = refl

-- On Postgres the statement is run by its EXPLAIN, and no guard has asked.
explained :
    explain_sql true (codes "DELETE FROM t; ")
    ≡ codes "EXPLAIN (ANALYZE, FORMAT JSON, BUFFERS) DELETE FROM t" ∷ []
unfolding explain_sql
explained = refl

two_pieces :
    extract_explain_json_text
      (some ((string (codes "{") ∷ []) ∷ (string (codes "}") ∷ []) ∷ []) ∷ [])
    ≡ some (codes "{\n}")
unfolding extract_explain_json_text
two_pieces = refl
