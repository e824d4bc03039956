-- ===== src/Dialogs/Destructive.antt =====
-- state/destructive-confirm.ts: the confirmation of a destructive action.
use basemaster.Base.{String, Bool, false, Option, none, some, List, [], ◌∷◌, ◌++◌}

-- `Omit<PendingDestructive, "id" | "resolve">`
pub record DestructiveRequest : Type 0 where
  pub title : String
  pub description : String
  pub items : List String
  pub confirm_label : String
  pub checkbox_label : String
  pub connection_name : Option String
  pub connection_color : Option (Option String)

pub record PendingDestructive : Type 0 where
  pub id : String
  pub request : DestructiveRequest
  pub resolve : String

pub record DestructiveState : Type 0 where
  pub pending : Option PendingDestructive
  pub settled : List (String × Bool)

-- `if (prev) prev.resolve(false)`
abbrev pub deny_prev : Option PendingDestructive → List (String × Bool) → List (String × Bool)
deny_prev none settled = settled
deny_prev (some prev) settled = settled ++ (prev.resolve, false) ∷ []

unfoldable pub confirm_destructive :
    DestructiveRequest → (id resolve : String) → DestructiveState → DestructiveState
confirm_destructive req id resolve s = record {
  pending = some (record { id = id; request = req; resolve = resolve });
  settled = deny_prev s.pending s.settled;
}

abbrev pub resolve_pending : Bool → Option PendingDestructive → DestructiveState → DestructiveState
resolve_pending confirmed none s = s
resolve_pending confirmed (some cur) s = record {
  pending = none;
  settled = s.settled ++ (cur.resolve, confirmed) ∷ [];
}

unfoldable pub resolve_current : Bool → DestructiveState → DestructiveState
resolve_current confirmed s = resolve_pending confirmed s.pending s
