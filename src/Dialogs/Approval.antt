-- ===== src/Dialogs/Approval.antt =====
-- state/ai-approval.ts: the queue of the AI agent's actions that wait for the user's approval.
use basemaster.Base.{String, Bool, Option, List, [], ◌∷◌, ◌++◌, head?}
use basemaster.Base.Dict.{Dict}

pub data ApprovalKind : Type 0 where
  sql_approval rows_approval generic_approval : ApprovalKind

-- A value of `meta`; `undefined` is a key that is absent.
pub data MetaValue : Type 0 where
  meta_text meta_number : String → MetaValue
  meta_null : MetaValue

-- `Omit<PendingApproval, "id" | "resolve">`
pub record ApprovalRequest : Type 0 where
  pub kind : ApprovalKind
  pub title : String
  pub description : String
  pub sql : Option String
  pub meta : Option (Dict MetaValue)

pub record PendingApproval : Type 0 where
  pub id : String
  pub request : ApprovalRequest
  pub resolve : String

pub record ApprovalState : Type 0 where
  pub pending : Option PendingApproval
  pub queue : List PendingApproval
  pub settled : List (String × Bool)

unfoldable pub request_approval :
    ApprovalRequest → (id resolve : String) → ApprovalState → ApprovalState
request_approval req id resolve s =
    let queue = s.queue ++ (record { id = id; request = req; resolve = resolve }) ∷ [] in
    record { pending = head? queue; queue = queue; settled = s.settled }

abbrev pub answer_first : Bool → List PendingApproval → ApprovalState → ApprovalState
answer_first approved [] s = s
answer_first approved (cur ∷ queue) s = record {
  pending = head? queue;
  queue = queue;
  settled = s.settled ++ (cur.resolve, approved) ∷ [];
}

unfoldable pub resolve_approval : Bool → ApprovalState → ApprovalState
resolve_approval approved s = answer_first approved s.queue s
