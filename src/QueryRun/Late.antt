-- ===== src/QueryRun/Late.antt =====
-- Answers that come in behind a stop in query-tab.tsx.
use basemaster.Base.{
  ℕ, ◌<◌, ◌≤◌, ◌≡◌, refl, ap, false, none, List, [], ◌∷◌, arith, All, All-map, ◌==◌,
}
use basemaster.Base.Text.{Text}
use basemaster.QueryRun.{RunTab, failed, Flight, RunOutcome, end_run, cleared, receive, handle_stop}

-- Answers in the order in which they come in.
unfoldable pub receive_all : List (Flight × RunOutcome) → RunTab → RunTab
unfolding receive
receive_all [] t = t
receive_all ((f, outcome) ∷ answers) t = receive_all answers (receive f outcome t)

-- What stays of a tab when the runs are over that it does not wait for.
record IsQuiet (t u : RunTab) : Type 0 where
  same_token : u.run_token ≡ t.run_token
  same_run : u.run_state ≡ t.run_state
  same_history : u.history ≡ t.history
  no_request : u.run_request_id ≡ none

not_last : (token last : ℕ) → token < last → (last == token) ≡ false
not_last token last h = ground arith

receive-IsQuiet :
    (f : Flight) (outcome : RunOutcome) (t u : RunTab)
    → f.token < t.run_token
    → IsQuiet t u
    → IsQuiet t (receive f outcome u)
unfolding receive end_run
receive-IsQuiet f outcome t u h q =
    rw (not_last f.token u.run_token (omega (arith, h, q.same_token))) (record {
      same_token = q.same_token;
      same_run = q.same_run;
      same_history = q.same_history;
      no_request = ap (cleared f.request_id) q.no_request;
    })

receive_all-IsQuiet :
    (answers : List (Flight × RunOutcome)) (t u : RunTab)
    → All (λ a. (a.0).token < t.run_token) answers
    → IsQuiet t u
    → IsQuiet t (receive_all answers u)
unfolding receive_all
receive_all-IsQuiet [] t u h q = q
receive_all-IsQuiet ((f, outcome) ∷ answers) t u (h, hs) q =
    receive_all-IsQuiet answers t (receive f outcome u) hs (receive-IsQuiet f outcome t u h q)

-- After a stop, whatever answers come in of runs that had begun before it, the tab still says that the
-- run was stopped, the history has no new entry, and no request is left to cancel.
pub receive_all-handle_stop :
    (message : Text) (t : RunTab) (answers : List (Flight × RunOutcome))
    → All (λ a. (a.0).token ≤ t.run_token) answers
    → ((receive_all answers (handle_stop message t)).run_state ≡ failed message)
      × ((receive_all answers (handle_stop message t)).history ≡ t.history)
      × ((receive_all answers (handle_stop message t)).run_request_id ≡ none)
unfolding handle_stop
receive_all-handle_stop message t answers h =
    let q =
      receive_all-IsQuiet answers (handle_stop message t) (handle_stop message t)
        (All-map _ _ (λ a k. omega (arith, k)) answers h)
        (record { same_token = refl; same_run = refl; same_history = refl; no_request = refl }) in
    (q.same_run, q.same_history, q.no_request)
