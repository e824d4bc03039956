-- ===== src/Dialogs/Tests.antt =====
-- The theorems on a few calls.
use basemaster.Base.{◌≡◌, true, false, none, some, List, [], ◌∷◌, ◌++◌}
use basemaster.Dialogs.{promises}
use basemaster.Dialogs.App.{confirm_kind, flag}
use basemaster.Dialogs.Destructive.{DestructiveRequest}
use basemaster.Dialogs.Approval.{ApprovalRequest, sql_approval}
use basemaster.Dialogs.Prompt.{DangerousQueryState, ask_confirm, resolve_prompt}
use basemaster.Dialogs.Order.{
  AppCall, alerts, confirms, dismisses, app_calls, app_asked, app_waiting, no_dialog,
  app_calls-promises,
}
use basemaster.Dialogs.Answers.{
  ConfirmCall, asks, answers, ApprovalCall, requests, resolves, resolve_prompt-ask_confirm,
}

-- An alert, a confirmation that takes over, its answer, and another alert.
abbrev dialogs : List AppCall
dialogs =
    alerts "saved" (record { title = none; ok_label = none }) "1" "p"
    ∷ confirms "sure?" (record { title = none; ok_label = none; cancel_label = none }) "2" "q"
    ∷ dismisses confirm_kind (flag true)
    ∷ alerts "done" (record { title = none; ok_label = none }) "3" "r"
    ∷ []

app_calls-promises_example :
    promises (app_calls dialogs no_dialog).settled
      ++ app_waiting (app_calls dialogs no_dialog).pending
    ≡ app_asked dialogs
app_calls-promises_example = app_calls-promises dialogs

abbrev drop_table : DestructiveRequest
drop_table = record {
  title = "Drop";
  description = "This cannot be undone";
  items = "t" ∷ [];
  confirm_label = "Drop 1 table";
  checkbox_label = "Yes";
  connection_name = none;
  connection_color = none;
}

abbrev confirmations : List ConfirmCall
confirmations =
    asks drop_table "1" "p" ∷ asks drop_table "2" "q" ∷ answers true ∷ answers false ∷ []

abbrev insert_rows : ApprovalRequest
insert_rows = record {
  kind = sql_approval;
  title = "Insert";
  description = "two rows";
  sql = some "INSERT INTO t VALUES (1), (2)";
  meta = none;
}

abbrev approvals : List ApprovalCall
approvals = requests insert_rows "1" "p" ∷ requests insert_rows "2" "q" ∷ resolves false ∷ []

abbrev guarded : DangerousQueryState
guarded = record { skip_guard = false; pending = none; settled = [] }

resolve_prompt-ask_confirm_example :
    (promises (resolve_prompt true false (ask_confirm [] "q" (ask_confirm [] "p" guarded))).settled
      ≡ promises guarded.settled ++ "q" ∷ [])
    × ((resolve_prompt true false (ask_confirm [] "q" (ask_confirm [] "p" guarded))).pending ≡ none)
resolve_prompt-ask_confirm_example = resolve_prompt-ask_confirm [] [] "p" "q" true false guarded
