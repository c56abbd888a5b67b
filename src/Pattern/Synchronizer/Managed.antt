-- ===== src/Pattern/Synchronizer/Managed.antt =====
-- The managed synchronizer: an action is called when the one before it has reported.
use art_platform.Common.{
  suc, ◌+◌, ◌≡◌, ◌≤◌, ◌<◌, refl, true, List, [], ◌∷◌, ◌++◌, map, arith, length, length-append,
}
use art_platform.Pattern.Synchronizer.Defs.{
  Synchronizer, action_called, started, completed, start, process, reports, run,
}
use art_platform.Pattern.Synchronizer.Plain.{process_last}

module _ {ℓ} {A : Type ℓ} where
  process_next :
      (s : Synchronizer A) (a : A) (rest : List A)
      → s.managed ≡ true
      → s.actions ≡ a ∷ rest
      → s.counter + 1 < suc (length rest)
      → process s ≡ (record s { actions = rest; counter = s.counter + 1 }, action_called a ∷ [])
  unfolding process
  process_next s a rest m e lt = ground arith

  reports_managed :
      (s : Synchronizer A) (xs ys : List A)
      → s.managed ≡ true
      → s.actions ≡ xs ++ ys
      → s.counter + length xs ≤ length ys
      → length ys ≤ suc (s.counter + length xs)
      → reports (suc (length xs)) s ≡ (
        record s { actions = ys; counter = s.counter + suc (length xs); done = true },
        map action_called xs ++ completed s.on_complete ∷ [],
      )
  unfolding reports
  reports_managed s [] ys m e lo hi = rw (process_last s (rw e (omega arith))) (ground arith)
  reports_managed s (x ∷ xs) ys m e lo hi =
      rw (process_next s x (xs ++ ys) m e (omega (arith, length-append xs ys))) (
        ground (
          arith,
          reports_managed (record s { actions = xs ++ ys; counter = s.counter + 1 }) xs ys m refl,
        ))

  -- A managed run from the counter 0 is done too early. Of its actions it calls the first half, the middle one
  -- included; then it is done and calls the completion, while the others stay uncalled.
  pub run_managed :
      (s : Synchronizer A) (a : A) (xs ys : List A)
      → s.managed ≡ true
      → s.counter ≡ 0
      → s.actions ≡ a ∷ (xs ++ ys)
      → length xs ≤ length ys
      → length ys ≤ suc (length xs)
      → run (suc (length xs)) s ≡ (
        record s { actions = ys; counter = suc (length xs); done = true },
        started s.on_start
            ∷ action_called a
            ∷ (map action_called xs ++ completed s.on_complete ∷ []),
      )
  unfolding run start
  run_managed s a xs ys m c e lo hi =
      ground (arith, reports_managed (record s { actions = xs ++ ys }) xs ys m refl)
