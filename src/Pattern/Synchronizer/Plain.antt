-- ===== src/Pattern/Synchronizer/Plain.antt =====
-- The synchronizer that is not managed: all actions are called at once.
use art_platform.Common.{
  ℕ, zero, suc, ◌+◌, ◌≡◌, ◌≤◌, ◌<◌, true, false, [], ◌∷◌, ◌++◌, map, arith, length, append-nil, ap,
  ◌∙◌,
}
use art_platform.Pattern.Synchronizer.Defs.{
  Synchronizer, action_called, started, completed, start, process, reports, run,
}

module _ {ℓ} {A : Type ℓ} where
  pub process_short :
      (s : Synchronizer A)
      → s.managed ≡ false
      → s.counter + 1 < length s.actions
      → process s ≡ (record s { counter = s.counter + 1 }, [])
  unfolding process
  process_short s m lt = ground arith

  -- The report that reaches the number of actions completes the run, also a managed one.
  pub process_last :
      (s : Synchronizer A)
      → length s.actions ≤ s.counter + 1
      → process s
        ≡ (record s { counter = s.counter + 1; done = true }, completed s.on_complete ∷ [])
  unfolding process
  process_last s le = ground arith

  reports_plain :
      (n : ℕ) (s : Synchronizer A)
      → s.managed ≡ false
      → s.counter + suc n ≡ length s.actions
      → reports (suc n) s
        ≡ (record s { counter = length s.actions; done = true }, completed s.on_complete ∷ [])
  unfolding reports
  reports_plain zero s m e = rw (process_last s (omega arith)) (ground arith)
  reports_plain (suc n) s m e =
      rw (process_short s m (omega arith))
        (reports_plain n (record s { counter = s.counter + 1 }) m (omega arith))

  -- Reports that do not reach the number of actions call nothing.
  reports_short :
      (k : ℕ) (s : Synchronizer A)
      → s.managed ≡ false
      → s.counter + k < length s.actions
      → reports k s ≡ (record s { counter = s.counter + k }, [])
  unfolding reports
  reports_short zero s m lt = ap (λ n. (record s { counter = n }, [])) {x = s.counter} (omega arith)
  reports_short (suc k) s m lt = rw (process_short s m (omega arith)) (
      reports_short k (record s { counter = s.counter + 1 }) m (omega arith)
      ∙ ap (λ n. (record s { counter = n }, [])) (omega arith))

  -- A run that is not managed, from the counter 0 and with an action, calls its start and every
  -- action, in order. With fewer reports than actions it calls nothing more and is not done by them;
  -- with as many it is done and calls the completion once, at the end.
  pub run_plain :
      (s : Synchronizer A) (n : ℕ)
      → s.managed ≡ false
      → s.counter ≡ 0
      → length s.actions ≡ suc n
      → ((k : ℕ)
          → k ≤ n
          → run k s ≡ (record s { counter = k }, started s.on_start ∷ map action_called s.actions))
        × (run (suc n) s ≡ (
          record s { counter = suc n; done = true },
          (started s.on_start ∷ map action_called s.actions) ++ completed s.on_complete ∷ [],
        ))
  unfolding run start
  run_plain s n m c len = (
    λ k le.
        ground (arith, reports_short k s m (omega arith), append-nil (map action_called s.actions)),
    ground (arith, reports_plain n s m (omega arith)),
  )
