-- ===== src/Dialogs/App.antt =====
-- state/app-dialog.ts: the dialogs in place of `alert`, `confirm` and `prompt`.
use basemaster.Base.{
  String, Bool, true, false, Option, none, some, List, [], ◌∷◌, ◌++◌, if◌then◌else◌,
}

pub data Kind : Type 0 where
  alert_kind confirm_kind prompt_kind : Kind

pub record AlertReq : Type 0 where
  pub id : String
  pub title : Option String
  pub message : String
  pub ok_label : Option String
  pub resolve : String

pub record ConfirmReq : Type 0 where
  pub id : String
  pub title : Option String
  pub message : String
  pub ok_label : Option String
  pub cancel_label : Option String
  pub resolve : String

pub record PromptReq : Type 0 where
  pub id : String
  pub title : Option String
  pub message : String
  pub default_value : Option String
  pub placeholder : Option String
  pub ok_label : Option String
  pub cancel_label : Option String
  pub resolve : String

pub data PendingAppDialog : Type 0 where
  alert_req : AlertReq → PendingAppDialog
  confirm_req : ConfirmReq → PendingAppDialog
  prompt_req : PromptReq → PendingAppDialog

abbrev pub kind_of : PendingAppDialog → Kind
kind_of (alert_req r) = alert_kind
kind_of (confirm_req r) = confirm_kind
kind_of (prompt_req r) = prompt_kind

abbrev pub resolve_of : PendingAppDialog → String
resolve_of (alert_req r) = r.resolve
resolve_of (confirm_req r) = r.resolve
resolve_of (prompt_req r) = r.resolve

-- The values that the promises are resolved with.
pub data Payload : Type 0 where
  undefined : Payload
  flag : Bool → Payload
  input : Option String → Payload

pub record AppDialogState : Type 0 where
  pub pending : Option PendingAppDialog
  pub settled : List (String × Payload)

-- The options of a call, where `none` stands for a field or an `opts` that is absent.
pub record AlertOptions : Type 0 where
  pub title : Option String
  pub ok_label : Option String

pub record ConfirmOptions : Type 0 where
  pub title : Option String
  pub ok_label : Option String
  pub cancel_label : Option String

pub record PromptOptions : Type 0 where
  pub title : Option String
  pub default_value : Option String
  pub placeholder : Option String
  pub ok_label : Option String
  pub cancel_label : Option String

unfoldable pub cancel_value_for : Kind → Payload
cancel_value_for alert_kind = undefined
cancel_value_for confirm_kind = flag false
cancel_value_for prompt_kind = input none

-- `if (prev) prev.resolve(cancelValueFor(prev.kind))`
abbrev pub cancel_prev : Option PendingAppDialog → List (String × Payload) → List (String × Payload)
cancel_prev none settled = settled
cancel_prev (some prev) settled = settled ++ (resolve_of prev, cancel_value_for (kind_of prev)) ∷ []

unfoldable pub alert :
    String → AlertOptions → (id resolve : String) → AppDialogState → AppDialogState
alert message opts id resolve s = record {
  pending = some (
      alert_req (record {
        id = id;
        title = opts.title;
        message = message;
        ok_label = opts.ok_label;
        resolve = resolve;
      }));
  settled = cancel_prev s.pending s.settled;
}

unfoldable pub confirm :
    String → ConfirmOptions → (id resolve : String) → AppDialogState → AppDialogState
confirm message opts id resolve s = record {
  pending = some (
      confirm_req (record {
        id = id;
        title = opts.title;
        message = message;
        ok_label = opts.ok_label;
        cancel_label = opts.cancel_label;
        resolve = resolve;
      }));
  settled = cancel_prev s.pending s.settled;
}

unfoldable pub prompt :
    String → PromptOptions → (id resolve : String) → AppDialogState → AppDialogState
prompt message opts id resolve s = record {
  pending = some (
      prompt_req (record {
        id = id;
        title = opts.title;
        message = message;
        default_value = opts.default_value;
        placeholder = opts.placeholder;
        ok_label = opts.ok_label;
        cancel_label = opts.cancel_label;
        resolve = resolve;
      }));
  settled = cancel_prev s.pending s.settled;
}

abbrev pub same_kind : Kind → Kind → Bool
same_kind alert_kind alert_kind = true
same_kind confirm_kind confirm_kind = true
same_kind prompt_kind prompt_kind = true
same_kind _ _ = false

abbrev pub dismiss : Kind → Payload → Option PendingAppDialog → AppDialogState → AppDialogState
dismiss kind payload none s = s
dismiss kind payload (some cur) s =
    if same_kind (kind_of cur) kind
    then record { pending = none; settled = s.settled ++ (resolve_of cur, payload) ∷ [] }
    else s

unfoldable pub dismiss_with : Kind → Payload → AppDialogState → AppDialogState
dismiss_with kind payload s = dismiss kind payload s.pending s
