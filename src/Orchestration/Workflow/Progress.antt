-- ===== src/Orchestration/Workflow/Progress.antt =====
-- `run_indexing` and `drive` of backend/orchestration/workflow.py: no service is lost, repeated or
-- reordered, every checkpoint can be resumed from, and the driver ends.
use vectural.Prelude.{
  ℕ, zero, suc, ◌+◌, ◌≤◌, ◌<◌, ◌≡◌, ◌≢◌, refl, sym, ◌∙◌, ap, true, String, Option, some, List, [],
  ◌∷◌, ◌++◌, append_assoc, arith, length, All, All-append, string_key, if_ind, leb, ◌&&◌, subst,
}
use vectural.Prelude.Float.{Floats}
use vectural.Prelude.Dict
use vectural.Prelude.Dict.{Dict}
use vectural.Llm.Failures.{Result, ok, raised}
use vectural.Quota.Governor.{BudgetDecision}
use vectural.Orchestration.State.{WorkflowState, complete_current}
use vectural.Orchestration.Workflow.{
  Outcome, done, parked, continue, IndexingDeps, Run, run_loop, run_indexing, drive, complete,
  approval, park, count_run, close_round, more_pending,
}

-- The services of a run, in order: those that are done, then those that wait.
abbrev pub queue : WorkflowState → List String
queue s = s.completed_services ++ s.pending_services

-- What an outcome says of the services that still wait, of the `before` that waited at the start.
abbrev pub Promise : Result Outcome → ℕ → WorkflowState → Type 0
Promise (raised f) before s = Unit
Promise (ok done) before s = s.pending_services ≡ []
Promise (ok parked) before s = s.pending_services ≢ []
Promise (ok continue) before s = (s.pending_services ≢ []) × (length s.pending_services < before)

Promise-le :
    (o : Result Outcome) (m n : ℕ) (s : WorkflowState) → m ≤ n → Promise o m s → Promise o n s
Promise-le (raised f) m n s h k = tt
Promise-le (ok done) m n s h k = k
Promise-le (ok parked) m n s h k = k
Promise-le (ok continue) m n s h k = (k.0, omega (arith, h, k.1))

complete_current_lem :
    (s : WorkflowState) (service : String) (rest : List String)
    → s.pending_services ≡ service ∷ rest
    → ((complete_current s).pending_services ≡ rest)
      × ((complete_current s).completed_services ≡ s.completed_services ++ service ∷ [])
      × (queue (complete_current s) ≡ queue s)
unfolding complete_current
complete_current_lem s service rest e =
    (rw e, rw e, rw e (append_assoc s.completed_services (service ∷ []) rest))

module _ (F : Floats) (W File : Type 0) (deps : IndexingDeps F W File)
    (files : Dict String (List File)) (today : ℕ) where
  -- What holds after a run that began with `pending` waiting in `order`.
  pub record IsProgress (order pending : List String) (out : Result Outcome × Run F W File)
      : Type 0 where
    pub keeps : queue out.1.state ≡ order
    pub shrinks : length out.1.state.pending_services ≤ length pending
    pub promised : Promise out.0 (length pending) out.1.state
    pub recorded : All (λ s. queue s ≡ order) out.1.saved

  complete-progress :
      (order : List String) (service : String) (rest : List String) (w : W) (r : Run F W File)
      → r.state.pending_services ≡ service ∷ rest
      → queue r.state ≡ order
      → All (λ s. queue s ≡ order) r.saved
      → ((complete F W File w r).state.pending_services ≡ rest)
        × (queue (complete F W File w r).state ≡ order)
        × All (λ s. queue s ≡ order) (complete F W File w r).saved
  unfolding complete
  complete-progress order service rest w r sync q rec =
      let (left, _, same) = complete_current_lem r.state service rest sync in
      (left, same ∙ q, All-append _ r.saved _ rec (same ∙ q, tt))

  close_round-IsProgress :
      (order : List String) (service : String) (rest : List String) (processed : ℕ)
      (r r' : Run F W File) (w : W) (after : Result Outcome × Run F W File)
      (answer : Result (Unit {0}))
      → r.state.pending_services ≡ service ∷ rest
      → queue r.state ≡ order
      → All (λ s. queue s ≡ order) r.saved
      → r'.state.pending_services ≡ rest
      → queue r'.state ≡ order
      → All (λ s. queue s ≡ order) r'.saved
      → IsProgress order rest after
      → IsProgress order
          (service ∷ rest)
          (close_round F W File deps rest processed r w r' after answer)
  unfolding close_round
  close_round-IsProgress order service rest processed r r' w after (raised f) sync q rec sync' q'
        rec' ih =
      record { keeps = q; shrinks = rw sync (omega arith); promised = tt; recorded = rec }
  close_round-IsProgress order service rest processed r r' w after (ok _) sync q rec sync' q' rec'
        ih =
      if_ind (IsProgress order (service ∷ rest))
        (leb deps.services_per_run processed && more_pending F W File rest)
        {x = (ok continue, count_run F W File r')} {y = after}
        (λ full. record {
          keeps = q';
          shrinks = rw sync' (omega arith);
          promised = (
            λ none_left. more_pending-false (sym sync' ∙ none_left) full,
            omega (arith, ap length sync'),
          );
          recorded = All-append _ r'.saved _ rec' (q', tt);
        })
        (λ _. record {
          keeps = ih.keeps;
          shrinks = omega (arith, ih.shrinks);
          promised = Promise-le after.0 (length rest) _ after.1.state (omega arith) ih.promised;
          recorded = ih.recorded;
        })
    where
      more_pending-false :
          rest ≡ [] → (leb deps.services_per_run processed && more_pending F W File rest) ≡ true → ⊥
      more_pending-false e full = unfold more_pending in ground arith

  no_nil : (service : String) (rest : List String) → service ∷ rest ≡ [] → ⊥
  no_nil service rest e = ground (arith, ap length e)

  park-IsProgress :
      (order : List String) (service : String) (rest : List String) (decision : BudgetDecision)
      (r : Run F W File)
      → r.state.pending_services ≡ service ∷ rest
      → queue r.state ≡ order
      → All (λ s. queue s ≡ order) r.saved
      → IsProgress order (service ∷ rest) (ok parked, park F W File decision r)
  unfolding park
  park-IsProgress order service rest decision r sync q rec = record {
    keeps = q;
    shrinks = omega (arith, ap length sync);
    promised = λ none_left. no_nil service rest (sym sync ∙ none_left);
    recorded = All-append _ r.saved _ rec (q, tt);
  }

  run_loop-IsProgress :
      (order pending : List String) (processed : ℕ) (r : Run F W File)
      → r.state.pending_services ≡ pending
      → queue r.state ≡ order
      → All (λ s. queue s ≡ order) r.saved
      → IsProgress order pending (run_loop F W File deps files today pending processed r)
  unfolding run_loop
  run_loop-IsProgress order [] processed r sync q rec = record {
    keeps = q;
    shrinks = rw sync (omega arith);
    promised = sync;
    recorded = rec;
  }
  run_loop-IsProgress order (service ∷ rest) processed r sync q rec =
      let step = deps.summarise_service service (Dict.get_or service [] files) today r.world in
      let r' = complete F W File step.1 r in
      let (sync', q', rec') = complete-progress order service rest step.1 r sync q rec in
      let decision = approval F W File deps files today service r.world in
      if_ind (IsProgress order (service ∷ rest)) decision.proceed
        (λ _.
          close_round-IsProgress order service rest (processed + 1) r r' step.1 _ step.0 sync q rec
            sync' q' rec' (run_loop-IsProgress order rest (processed + 1) r' sync' q' rec'))
        (λ _. park-IsProgress order service rest decision r sync q rec)

  run_indexing-IsProgress_from :
      (order : List String) (r : Run F W File)
      → queue r.state ≡ order
      → All (λ s. queue s ≡ order) r.saved
      → IsProgress order r.state.pending_services (run_indexing F W File deps files today r)
  unfolding run_indexing
  run_indexing-IsProgress_from order r q rec =
      run_loop-IsProgress order r.state.pending_services 0 r refl q rec

  -- Whatever the activities do and however the run ends, a raised failure included, the completed
  -- services followed by the pending ones are the same list as before, in the run's state and in
  -- every checkpoint; `DONE` leaves none pending, `PARKED` leaves some, and `CONTINUE` leaves some, but
  -- fewer than before.
  pub run_indexing-IsProgress :
      (r : Run F W File)
      → All (λ s. queue s ≡ queue r.state) r.saved
      → IsProgress
          (queue r.state)
          r.state.pending_services
          (run_indexing F W File deps files today r)
  run_indexing-IsProgress r rec = run_indexing-IsProgress_from (queue r.state) r refl rec

  IsProgress-le :
      {order : List String} (before pending : List String) {out : Result Outcome × Run F W File}
      → length before ≤ length pending
      → IsProgress order before out
      → IsProgress order pending out
  IsProgress-le before pending {out} le p = record {
    keeps = p.keeps;
    shrinks = omega (arith, p.shrinks);
    promised = Promise-le out.0 (length before) (length pending) out.1.state le p.promised;
    recorded = p.recorded;
  }

  -- What `drive` comes back with: an end that is no `CONTINUE`.
  abbrev pub Driven : List String → List String → Option (Result Outcome × Run F W File) → Type 0
  Driven order pending result =
      (out : Result Outcome × Run F W File) × (result ≡ some out)
      × (out.0 ≢ ok continue)
      × IsProgress order pending out

  goes_on :
      {order pending : List String} {out : Result Outcome × Run F W File}
      → IsProgress order pending out
      → out.0 ≡ ok continue
      → Promise (ok continue) (length pending) out.1.state
  goes_on {order} {pending} {out} p e =
      subst (λ o. Promise o (length pending) out.1.state) e p.promised

  drive_step :
      (order : List String) (fuel : ℕ) (r : Run F W File) (o : Result Outcome)
      → (run_indexing F W File deps files today r).0 ≡ o
      → IsProgress order r.state.pending_services (run_indexing F W File deps files today r)
      → (o ≡ ok continue
          → Driven order
              (run_indexing F W File deps files today r).1.state.pending_services
              (drive F W File deps files today fuel (run_indexing F W File deps files today r).1))
      → Driven order r.state.pending_services (drive F W File deps files today (suc fuel) r)
  unfolding drive
  drive_step order fuel r (raised f) e p again =
      (run_indexing F W File deps files today r, ground (arith, e), λ c. cc, p)
  drive_step order fuel r (ok done) e p again =
      (run_indexing F W File deps files today r, ground (arith, e), λ c. cc, p)
  drive_step order fuel r (ok parked) e p again =
      (run_indexing F W File deps files today r, ground (arith, e), λ c. cc, p)
  drive_step order fuel r (ok continue) e p again =
      let (out, found, stops, q) = again refl in
      (out, ground (arith, e, found), stops, IsProgress-le _ _ p.shrinks q)

  drive-Driven :
      (order : List String) (fuel : ℕ) (r : Run F W File)
      → length r.state.pending_services < fuel
      → queue r.state ≡ order
      → All (λ s. queue s ≡ order) r.saved
      → Driven order r.state.pending_services (drive F W File deps files today fuel r)
  drive-Driven order zero r enough q rec = absurd (omega arith)
  drive-Driven order (suc fuel) r enough q rec =
      let p = run_indexing-IsProgress_from order r q rec in
      drive_step order fuel r (run_indexing F W File deps files today r).0 refl p (λ e.
        drive-Driven order fuel (run_indexing F W File deps files today r).1
          (omega (arith, (goes_on p e).1)) p.keeps p.recorded)

  -- With more rounds than there are services pending, driving a run ends, whatever the activities
  -- do: in `DONE`, `PARKED` or a raised failure, never in `CONTINUE`. The completed services
  -- followed by the pending ones are as before, in the end and in every checkpoint, and `DONE`
  -- leaves none pending, `PARKED` some.
  pub drive_total :
      (fuel : ℕ) (r : Run F W File)
      → length r.state.pending_services < fuel
      → All (λ s. queue s ≡ queue r.state) r.saved
      → Driven (queue r.state) r.state.pending_services (drive F W File deps files today fuel r)
  drive_total fuel r enough rec = drive-Driven (queue r.state) fuel r enough refl rec
