-- ===== src/Dialogs/Order.antt =====
-- Which promises of the dialogs are settled, and in which order.
use mathlib.Core.List.{append_assoc, append-nil}
use basemaster.Base.{
  ◌≡◌, refl, sym, ap, ◌∙◌, String, Option, none, some, List, [], ◌∷◌, ◌++◌, Bool-cases, inl, inr,
}
use basemaster.Dialogs.{promises}
use basemaster.Dialogs.App.{
  AppDialogState, AlertOptions, ConfirmOptions, PromptOptions, PendingAppDialog, Kind, Payload,
  resolve_of, kind_of, cancel_prev, alert, confirm, prompt, same_kind, dismiss, dismiss_with,
}

pub promises-append {ℓ} :
    {A : Type ℓ} (xs : List (String × A)) (p : String) (a : A)
    → promises (xs ++ (p, a) ∷ []) ≡ promises xs ++ p ∷ []
promises-append [] p a = refl
promises-append (x ∷ xs) p a = ap (◌∷◌ x.0) (promises-append xs p a)

-- The calls of a dialog's store.
pub data AppCall : Type 0 where
  alerts : String → AlertOptions → (id resolve : String) → AppCall
  confirms : String → ConfirmOptions → (id resolve : String) → AppCall
  prompts : String → PromptOptions → (id resolve : String) → AppCall
  dismisses : Kind → Payload → AppCall

abbrev pub app_call : AppCall → AppDialogState → AppDialogState
app_call (alerts message opts id resolve) s = alert message opts id resolve s
app_call (confirms message opts id resolve) s = confirm message opts id resolve s
app_call (prompts message opts id resolve) s = prompt message opts id resolve s
app_call (dismisses kind payload) s = dismiss_with kind payload s

abbrev pub app_calls : List AppCall → AppDialogState → AppDialogState
app_calls [] s = s
app_calls (c ∷ calls) s = app_calls calls (app_call c s)

-- The promises that the calls made, in their order.
abbrev pub app_asked : List AppCall → List String
app_asked [] = []
app_asked (alerts message opts id resolve ∷ calls) = resolve ∷ app_asked calls
app_asked (confirms message opts id resolve ∷ calls) = resolve ∷ app_asked calls
app_asked (prompts message opts id resolve ∷ calls) = resolve ∷ app_asked calls
app_asked (dismisses kind payload ∷ calls) = app_asked calls

abbrev pub app_waiting : Option PendingAppDialog → List String
app_waiting none = []
app_waiting (some p) = resolve_of p ∷ []

-- All promises so far: those settled, and the one that waits.
abbrev pub app_promises : AppDialogState → List String
app_promises s = promises s.settled ++ app_waiting s.pending

cancel_prev_lem :
    (prev : Option PendingAppDialog) (settled : List (String × Payload))
    → promises (cancel_prev prev settled) ≡ promises settled ++ app_waiting prev
cancel_prev_lem none settled = sym (append-nil (promises settled))
cancel_prev_lem (some prev) settled = promises-append settled (resolve_of prev) _

dismiss_lem :
    (kind : Kind) (payload : Payload) (pending : Option PendingAppDialog) (s : AppDialogState)
    → s.pending ≡ pending
    → app_promises (dismiss kind payload pending s) ≡ app_promises s
dismiss_lem kind payload none s e = refl
dismiss_lem kind payload (some cur) s e = elim (Bool-cases (same_kind (kind_of cur) kind)) [
  | inl h ↦ rw (h, e) (append-nil _ ∙ promises-append s.settled (resolve_of cur) payload)
  | inr h ↦ rw h refl
]

app_calls_lem :
    (calls : List AppCall) (s : AppDialogState)
    → app_promises (app_calls calls s) ≡ app_promises s ++ app_asked calls
unfolding alert confirm prompt dismiss_with
app_calls_lem [] s = sym (append-nil (app_promises s))
app_calls_lem (alerts message opts id resolve ∷ calls) s =
    app_calls_lem calls (alert message opts id resolve s)
    ∙ rw (cancel_prev_lem s.pending s.settled)
        (append_assoc (app_promises s) (resolve ∷ []) (app_asked calls))
app_calls_lem (confirms message opts id resolve ∷ calls) s =
    app_calls_lem calls (confirm message opts id resolve s)
    ∙ rw (cancel_prev_lem s.pending s.settled)
        (append_assoc (app_promises s) (resolve ∷ []) (app_asked calls))
app_calls_lem (prompts message opts id resolve ∷ calls) s =
    app_calls_lem calls (prompt message opts id resolve s)
    ∙ rw (cancel_prev_lem s.pending s.settled)
        (append_assoc (app_promises s) (resolve ∷ []) (app_asked calls))
app_calls_lem (dismisses kind payload ∷ calls) s =
    app_calls_lem calls (dismiss_with kind payload s)
    ∙ ap (λ p. p ++ app_asked calls) (dismiss_lem kind payload s.pending s refl)

abbrev pub no_dialog : AppDialogState
no_dialog = record { pending = none; settled = [] }

-- Whatever dialogs are asked for and dismissed, in any order: the promises are settled in the order in
-- which they were made, each once, and at most the last one is not settled, the one that waits. So no
-- caller of `alert`, `confirm` or `prompt` is forgotten when another takes over.
pub app_calls-promises :
    (calls : List AppCall)
    → promises (app_calls calls no_dialog).settled
        ++ app_waiting (app_calls calls no_dialog).pending
      ≡ app_asked calls
app_calls-promises calls = app_calls_lem calls no_dialog
