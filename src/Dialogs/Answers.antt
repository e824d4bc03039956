-- ===== src/Dialogs/Answers.antt =====
-- Which promises the confirmations, the approvals and the question before a risky statement settle.
use mathlib.Core.List.{append_assoc, append-nil}
use basemaster.Base.{
  ◌≡◌, refl, sym, ap, ◌∙◌, String, Bool, Option, none, some, List, [], ◌∷◌, ◌++◌, head?,
}
use basemaster.Dialogs.{promises}
use basemaster.Dialogs.Destructive.{
  DestructiveState, DestructiveRequest, PendingDestructive, deny_prev, confirm_destructive,
  resolve_pending, resolve_current,
}
use basemaster.Dialogs.Approval.{
  ApprovalState, ApprovalRequest, PendingApproval, request_approval, answer_first, resolve_approval,
}
use basemaster.Dialogs.Prompt.{DangerousQueryState, ask_confirm, resolve_prompt}
use basemaster.Sql.Dangerous.Detect.{DangerousStatement}
use basemaster.Dialogs.Order.{promises-append}

pub data ConfirmCall : Type 0 where
  asks : DestructiveRequest → (id resolve : String) → ConfirmCall
  answers : Bool → ConfirmCall

abbrev pub confirm_call : ConfirmCall → DestructiveState → DestructiveState
confirm_call (asks req id resolve) s = confirm_destructive req id resolve s
confirm_call (answers confirmed) s = resolve_current confirmed s

abbrev pub confirm_calls : List ConfirmCall → DestructiveState → DestructiveState
confirm_calls [] s = s
confirm_calls (c ∷ calls) s = confirm_calls calls (confirm_call c s)

-- The promises that the calls made, in their order.
abbrev pub confirm_asked : List ConfirmCall → List String
confirm_asked [] = []
confirm_asked (asks req id resolve ∷ calls) = resolve ∷ confirm_asked calls
confirm_asked (answers confirmed ∷ calls) = confirm_asked calls

abbrev pub confirm_waiting : Option PendingDestructive → List String
confirm_waiting none = []
confirm_waiting (some p) = p.resolve ∷ []

abbrev pub confirm_promises : DestructiveState → List String
confirm_promises s = promises s.settled ++ confirm_waiting s.pending

deny_prev_lem :
    (prev : Option PendingDestructive) (settled : List (String × Bool))
    → promises (deny_prev prev settled) ≡ promises settled ++ confirm_waiting prev
deny_prev_lem none settled = sym (append-nil (promises settled))
deny_prev_lem (some prev) settled = promises-append settled prev.resolve _

resolve_pending_lem :
    (confirmed : Bool) (pending : Option PendingDestructive) (s : DestructiveState)
    → s.pending ≡ pending
    → confirm_promises (resolve_pending confirmed pending s) ≡ confirm_promises s
resolve_pending_lem confirmed none s e = refl
resolve_pending_lem confirmed (some cur) s e =
    rw e (append-nil _ ∙ promises-append s.settled cur.resolve confirmed)

confirm_calls_lem :
    (calls : List ConfirmCall) (s : DestructiveState)
    → confirm_promises (confirm_calls calls s) ≡ confirm_promises s ++ confirm_asked calls
unfolding confirm_destructive resolve_current
confirm_calls_lem [] s = sym (append-nil (confirm_promises s))
confirm_calls_lem (asks req id resolve ∷ calls) s =
    confirm_calls_lem calls (confirm_destructive req id resolve s)
    ∙ rw (deny_prev_lem s.pending s.settled)
        (append_assoc (confirm_promises s) (resolve ∷ []) (confirm_asked calls))
confirm_calls_lem (answers confirmed ∷ calls) s =
    confirm_calls_lem calls (resolve_current confirmed s)
    ∙ ap (λ p. p ++ confirm_asked calls) (resolve_pending_lem confirmed s.pending s refl)

abbrev pub no_confirm : DestructiveState
no_confirm = record { pending = none; settled = [] }

-- Whatever confirmations of destructive actions are asked for and answered, in any order: the promises
-- are settled in the order in which they were made, each once, and at most the last one is not settled,
-- the one that waits.
pub confirm_calls-promises :
    (calls : List ConfirmCall)
    → promises (confirm_calls calls no_confirm).settled
        ++ confirm_waiting (confirm_calls calls no_confirm).pending
      ≡ confirm_asked calls
confirm_calls-promises calls = confirm_calls_lem calls no_confirm

pub data ApprovalCall : Type 0 where
  requests : ApprovalRequest → (id resolve : String) → ApprovalCall
  resolves : Bool → ApprovalCall

abbrev pub approval_call : ApprovalCall → ApprovalState → ApprovalState
approval_call (requests req id resolve) s = request_approval req id resolve s
approval_call (resolves approved) s = resolve_approval approved s

abbrev pub approval_calls : List ApprovalCall → ApprovalState → ApprovalState
approval_calls [] s = s
approval_calls (c ∷ calls) s = approval_calls calls (approval_call c s)

abbrev pub approval_asked : List ApprovalCall → List String
approval_asked [] = []
approval_asked (requests req id resolve ∷ calls) = resolve ∷ approval_asked calls
approval_asked (resolves approved ∷ calls) = approval_asked calls

abbrev pub queued : List PendingApproval → List String
queued [] = []
queued (p ∷ queue) = p.resolve ∷ queued queue

queued-append :
    (xs : List PendingApproval) (p : PendingApproval)
    → queued (xs ++ p ∷ []) ≡ queued xs ++ p.resolve ∷ []
queued-append [] p = refl
queued-append (x ∷ xs) p = ap (◌∷◌ x.resolve) (queued-append xs p)

abbrev pub approval_promises : ApprovalState → List String
approval_promises s = promises s.settled ++ queued s.queue

answer_first_lem :
    (approved : Bool) (queue : List PendingApproval) (s : ApprovalState)
    → s.queue ≡ queue
    → approval_promises (answer_first approved queue s) ≡ approval_promises s
answer_first_lem approved [] s e = refl
answer_first_lem approved (cur ∷ queue) s e =
    rw (e, promises-append s.settled cur.resolve approved)
      (append_assoc (promises s.settled) (cur.resolve ∷ []) (queued queue))

approval_calls_lem :
    (calls : List ApprovalCall) (s : ApprovalState)
    → approval_promises (approval_calls calls s) ≡ approval_promises s ++ approval_asked calls
unfolding request_approval resolve_approval
approval_calls_lem [] s = sym (append-nil (approval_promises s))
approval_calls_lem (requests req id resolve ∷ calls) s =
    approval_calls_lem calls (request_approval req id resolve s)
    ∙ rw (queued-append s.queue (record { id = id; request = req; resolve = resolve }))
        (simp append_assoc)
approval_calls_lem (resolves approved ∷ calls) s =
    approval_calls_lem calls (resolve_approval approved s)
    ∙ ap (λ p. p ++ approval_asked calls) (answer_first_lem approved s.queue s refl)

mirrors :
    (c : ApprovalCall) (s : ApprovalState)
    → s.pending ≡ head? s.queue
    → (approval_call c s).pending ≡ head? (approval_call c s).queue
unfolding request_approval resolve_approval
mirrors (requests req id resolve) s e = refl
mirrors (resolves approved) s e = answered s.queue s e
  where
    answered :
        (queue : List PendingApproval) (s : ApprovalState)
        → s.pending ≡ head? s.queue
        → (answer_first approved queue s).pending ≡ head? (answer_first approved queue s).queue
    answered [] s e = e
    answered (cur ∷ queue) s e = refl

mirrors_all :
    (calls : List ApprovalCall) (s : ApprovalState)
    → s.pending ≡ head? s.queue
    → (approval_calls calls s).pending ≡ head? (approval_calls calls s).queue
mirrors_all [] s e = e
mirrors_all (c ∷ calls) s e = mirrors_all calls (approval_call c s) (mirrors c s e)

abbrev pub no_approval : ApprovalState
no_approval = record { pending = none; queue = []; settled = [] }

-- Whatever approvals the agent asks for and the user gives or denies, in any order: the requests are
-- answered one at a time in the order in which they were made, each once, those not answered wait in
-- the queue in that order, and the dialog shows the first of the queue.
pub approval_calls-promises :
    (calls : List ApprovalCall)
    → (promises (approval_calls calls no_approval).settled
          ++ queued (approval_calls calls no_approval).queue
        ≡ approval_asked calls)
      × ((approval_calls calls no_approval).pending
          ≡ head? (approval_calls calls no_approval).queue)
approval_calls-promises calls =
    (approval_calls_lem calls no_approval, mirrors_all calls no_approval refl)

-- A question asked while another one waits takes its place and leaves its promise unsettled: the next
-- answer settles the second question's promise alone, and then none waits.
pub resolve_prompt-ask_confirm :
    (first second : List DangerousStatement) (p q : String) (proceed dont_ask_again : Bool)
    (s : DangerousQueryState)
    → (promises
          (resolve_prompt proceed dont_ask_again
            (ask_confirm second q (ask_confirm first p s))).settled
        ≡ promises s.settled ++ q ∷ [])
      × ((resolve_prompt proceed dont_ask_again
            (ask_confirm second q (ask_confirm first p s))).pending
          ≡ none)
unfolding ask_confirm resolve_prompt
resolve_prompt-ask_confirm first second p q proceed dont_ask_again s =
    (promises-append s.settled q proceed, refl)
