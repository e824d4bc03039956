-- ===== src/Dialogs.antt =====
-- The stores of dialogs that a caller waits for: state/app-dialog.ts, state/destructive-confirm.ts,
-- state/ai-approval.ts and state/dangerous-query.ts. A promise has a name, and the `resolve` of a
-- request is the name of its promise; `settled` lists the calls of `resolve` in their order, each with
-- its value. New ids are arguments.
pub mod App
pub mod Destructive
pub mod Approval
pub mod Prompt
pub mod Order
pub mod Answers
mod Tests
use basemaster.Base.{String, List, [], ◌∷◌}

abbrev pub promises {ℓ} : {A : Type ℓ} → List (String × A) → List String
promises [] = []
promises (r ∷ settled) = r.0 ∷ promises settled
