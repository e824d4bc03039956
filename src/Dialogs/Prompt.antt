-- ===== src/Dialogs/Prompt.antt =====
-- state/dangerous-query.ts: the question before a statement with no WHERE runs.
use basemaster.Base.{
  String, Bool, true, Option, none, some, List, [], ◌∷◌, ◌++◌, ◌&&◌, if◌then◌else◌,
}
use basemaster.Sql.Dangerous.Detect.{DangerousStatement}

pub record PendingPrompt : Type 0 where
  pub statements : List DangerousStatement
  pub resolve : String

pub record DangerousQueryState : Type 0 where
  pub skip_guard : Bool
  pub pending : Option PendingPrompt
  pub settled : List (String × Bool)

unfoldable pub set_skip_guard : Bool → DangerousQueryState → DangerousQueryState
set_skip_guard v s = record s { skip_guard = v }

unfoldable pub ask_confirm :
    List DangerousStatement → String → DangerousQueryState → DangerousQueryState
ask_confirm statements resolve s = record s {
  pending = some (record { statements = statements; resolve = resolve });
}

abbrev pub answer : Bool → Bool → Option PendingPrompt → DangerousQueryState → DangerousQueryState
answer proceed dont_ask_again none s = s
answer proceed dont_ask_again (some current) s = record {
  skip_guard = if proceed && dont_ask_again then true else s.skip_guard;
  pending = none;
  settled = s.settled ++ (current.resolve, proceed) ∷ [];
}

unfoldable pub resolve_prompt : Bool → Bool → DangerousQueryState → DangerousQueryState
resolve_prompt proceed dont_ask_again s = answer proceed dont_ask_again s.pending s
