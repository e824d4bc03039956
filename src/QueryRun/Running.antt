-- ===== src/QueryRun/Running.antt =====
-- When the tab of query-tab.tsx says that a run is under way.
use basemaster.Base.{
  ℕ, ◌+◌, ◌≤◌, ◌≡◌, refl, sym, ◌∙◌, inl, inr, String, Bool, true, false, not, Option, List, [], ◌∷◌,
  arith, All, All-map, All-filter, any, filter, ◌==◌, if◌then◌else◌, Bool-cases,
}
use basemaster.Base.Text.{Text}
use basemaster.QueryRun.{
  RunTab, RunState, running, Flight, RunOutcome, answered, throws, end_run, receive, handle_stop,
  run_sql, passes_guard, run_succeeded, run_thrown,
}

abbrev pub is_running : RunState → Bool
is_running running = true
is_running _ = false

abbrev pub awaits : ℕ → List Flight → Bool
awaits token flights = any (λ f. f.token == token) flights

pub record IsValid (t : RunTab) : Type 0 where
  pub begun : All (λ f. f.token ≤ t.run_token) t.in_flight
  pub shown : is_running t.run_state ≡ awaits t.run_token t.in_flight

-- What happens to the tab: a run begins or is refused by the guard, an answer comes in, or the user stops.
pub data Step (t : RunTab) : RunTab → Type 0 where
  runs :
      (skip_guard confirmed : Bool) (request_id : String) (sql : Text) (schema : Option String)
      → Step t (run_sql skip_guard confirmed request_id sql schema t)
  receives : (f : Flight) (outcome : RunOutcome) → Step t (receive f outcome t)
  stops : (message : Text) → Step t (handle_stop message t)

pub data Reach (t : RunTab) : RunTab → Type 0 where
  here : Reach t t
  next : {u v : RunTab} → Reach t u → Step u v → Reach t v

awaits_later :
    (last : ℕ) (flights : List Flight)
    → All (λ f. f.token ≤ last) flights
    → awaits (last + 1) flights ≡ false
awaits_later last [] h = refl
awaits_later last (f ∷ flights) (h, hs) = ground (arith, awaits_later last flights hs)

awaits-filter :
    (token ended : ℕ) (flights : List Flight)
    → awaits token (filter (λ g. not (g.token == ended)) flights)
      ≡ (if token == ended then false else awaits token flights)
awaits-filter token ended [] = ground arith
awaits-filter token ended (f ∷ flights) = ground (arith, awaits-filter token ended flights)

last_ended :
    (f : Flight) (t : RunTab)
    → (t.run_token == f.token) ≡ true
    → false ≡ awaits t.run_token (filter (λ g. not (g.token == f.token)) t.in_flight)
last_ended f t e = sym (awaits-filter t.run_token f.token t.in_flight ∙ rw e refl)

receive_last :
    (f : Flight) (outcome : RunOutcome) (t : RunTab)
    → (t.run_token == f.token) ≡ true
    → IsValid t
    → IsValid (receive f outcome t)
unfolding receive end_run run_succeeded run_thrown
receive_last f (answered batch) t e v =
    rw e (record { begun = All-filter _ _ t.in_flight v.begun; shown = last_ended f t e })
receive_last f (throws message) t e v =
    rw e (record { begun = All-filter _ _ t.in_flight v.begun; shown = last_ended f t e })

run_sql-IsValid :
    (skip_guard confirmed : Bool) (request_id : String) (sql : Text) (schema : Option String)
    (t : RunTab)
    → IsValid t
    → IsValid (run_sql skip_guard confirmed request_id sql schema t)
unfolding run_sql
run_sql-IsValid skip_guard confirmed request_id sql schema t v =
    elim (Bool-cases (passes_guard skip_guard confirmed sql)) [
      | inl e ↦ rw e (record {
        begun = (omega arith, All-map _ _ (λ f k. omega (arith, k)) t.in_flight v.begun);
        shown = ground arith;
      })
      | inr e ↦ rw e v
    ]

receive-IsValid :
    (f : Flight) (outcome : RunOutcome) (t : RunTab) → IsValid t → IsValid (receive f outcome t)
unfolding receive end_run
receive-IsValid f outcome t v = elim (Bool-cases (t.run_token == f.token)) [
  | inl e ↦ receive_last f outcome t e v
  | inr e ↦ rw e (record {
    begun = All-filter _ _ t.in_flight v.begun;
    shown = v.shown ∙ sym (awaits-filter t.run_token f.token t.in_flight ∙ rw e refl);
  })
]

handle_stop-IsValid : (message : Text) (t : RunTab) → IsValid t → IsValid (handle_stop message t)
unfolding handle_stop
handle_stop-IsValid message t v = record {
  begun = All-map _ _ (λ f k. omega (arith, k)) t.in_flight v.begun;
  shown = sym (awaits_later t.run_token t.in_flight v.begun);
}

Step-IsValid : {t u : RunTab} → Step t u → IsValid t → IsValid u
Step-IsValid {t} (runs skip_guard confirmed request_id sql schema) v =
    run_sql-IsValid skip_guard confirmed request_id sql schema t v
Step-IsValid {t} (receives f outcome) v = receive-IsValid f outcome t v
Step-IsValid {t} (stops message) v = handle_stop-IsValid message t v

-- Whatever runs, answers and stops follow one another, starting at a tab for which it holds: no run that
-- awaits an answer is newer than the token, and the tab shows that it is running exactly while the run
-- with the last token awaits its answer.
pub tab-Reach-IsValid : {t u : RunTab} → IsValid t → Reach t u → IsValid u
tab-Reach-IsValid v here = v
tab-Reach-IsValid v (next r step) = Step-IsValid step (tab-Reach-IsValid v r)
