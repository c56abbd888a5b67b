-- ===== src/Context/Loading.antt =====
-- What a rendering of a context loads, and when the context shows its widget.
use art_platform.Common.{
  ℕ, zero, suc, ◌+◌, ◌<◌, ◌≤◌, ◌≡◌, refl, sym, ap, ◌∙◌, Bool, true, false, List, [], ◌∷◌, ◌++◌, map,
  append_assoc, append-nil, map-append, length, length-map, arith, if◌then◌else◌, any,
}
use art_platform.Pattern.Synchronizer.{
  Synchronizer, action_called, started, completed, add_on_complete, add_on_start, start,
}
use art_platform.Pattern.Synchronizer.Plain.{process_short, process_last}
use art_platform.Context.Defs.{
  State, created, loading, initialized, Loader, applications, assemblies, modules, projects,
  resources, prepared_configurations, Action, load, pause, continue, set_initialized, Context,
  action_if, request_loads, register, is_set_initialized, state_after, render, answer, answers,
}

abbrev if_included : Bool → Loader → List Loader
if_included flag loader = if flag then loader ∷ [] else []

-- The loaders that a context includes, in the order of the source.
abbrev pub included : Context → List Loader
included c =
    if_included c.with_applications applications
    ++ (if_included c.with_assemblies assemblies
        ++ (if_included c.with_modules modules
            ++ (if_included c.with_projects projects
                ++ (if_included c.with_resources resources
                    ++ if_included c.with_prepared_configurations prepared_configurations))))

action_if_lem :
    (flag : Bool) (loader : Loader) (s : Synchronizer Action)
    → action_if flag loader s
      ≡ record s { actions = s.actions ++ map load (if_included flag loader) }
unfolding action_if
action_if_lem true loader s = refl
action_if_lem false loader s = λ i. record s { actions = sym (append-nil s.actions) i }

-- The synchronizer is as it was made, or as `reset` leaves it, but for its listeners.
pub record IsReset (s : Synchronizer Action) : Type 0 where
  pub no_actions : s.actions ≡ []
  pub at_zero : s.counter ≡ 0
  pub plain : s.managed ≡ false

-- What `register` does to the synchronizer of a context that is created.
abbrev pub registered : Context → Synchronizer Action
registered c = record c.synchronizer {
  actions = c.synchronizer.actions ++ map load (included c);
  on_complete = set_initialized ∷ c.synchronizer.on_complete;
}

request_loads_lem :
    (c : Context) (s : Synchronizer Action)
    → request_loads c s ≡ record s { actions = s.actions ++ map load (included c) }
unfolding request_loads
request_loads_lem c s = simp (action_if_lem, append_assoc, map-append) refl

register_lem :
    (c : Context)
    → c.state ≡ created
    → register c ≡ record c { state = loading; synchronizer = registered c }
unfolding register
register_lem c e =
    rw (e, register, request_loads_lem c (add_on_complete set_initialized c.synchronizer)) refl

state_after-calls :
    (actions : List Action) (state : State) → state_after (map action_called actions) state ≡ state
unfolding state_after
state_after-calls [] state = refl
state_after-calls (a ∷ actions) state = state_after-calls actions state

-- The synchronizer of a context after its first rendering.
abbrev pub rendered : Context → Synchronizer Action
rendered c = record c.synchronizer {
  actions = map load (included c);
  on_start = c.synchronizer.on_start ++ pause ∷ [];
  on_complete = set_initialized ∷ continue ∷ c.synchronizer.on_complete;
}

start_all :
    (s : Synchronizer Action) (n : ℕ)
    → s.counter ≡ 0
    → s.managed ≡ false
    → length s.actions ≡ suc n
    → start s ≡ (s, started s.on_start ∷ map action_called s.actions)
unfolding start
start_all s n c m e = ground arith

pub start_none :
    (s : Synchronizer Action)
    → s.counter ≡ 0
    → s.actions ≡ []
    → start s ≡ (s, completed s.on_complete ∷ [])
unfolding start
start_none s c e = ground (arith, ap length e)

-- What `render` leaves to `start`.
pub opened :
    (c : Context)
    → c.state ≡ created
    → IsReset c.synchronizer
    → register
        (record c { synchronizer = add_on_complete continue (add_on_start pause c.synchronizer) })
      ≡ record c { state = loading; synchronizer = rendered c }
unfolding add_on_complete add_on_start
opened c e r = register_lem _ e ∙ (λ i. record c {
  state = loading;
  synchronizer = record (rendered c) { actions = r.no_actions i ++ map load (included c) };
})

pub render_created :
    (c : Context) (n : ℕ)
    → c.state ≡ created
    → IsReset c.synchronizer
    → length (included c) ≡ suc n
    → render c ≡ (
      record c { state = loading; synchronizer = rendered c },
      started (c.synchronizer.on_start ++ pause ∷ []) ∷ map action_called (map load (included c)),
    )
unfolding render state_after
render_created c n e r len =
    rw
      (
        opened c e r,
        start_all (rendered c) n r.at_zero r.plain (length-map load (included c) ∙ len),
        state_after-calls (map load (included c)) loading,
      )
      refl

pub render_loading :
    (c : Context) (n : ℕ)
    → c.state ≡ loading
    → c.synchronizer.counter ≡ 0
    → c.synchronizer.managed ≡ false
    → length c.synchronizer.actions ≡ suc n
    → let (again, calls) = render c in
      (again.state ≡ loading)
      × (calls
          ≡ started (c.synchronizer.on_start ++ pause ∷ [])
            ∷ map action_called c.synchronizer.actions)
unfolding render register state_after add_on_start add_on_complete
render_loading c n e z m len =
    let s = add_on_complete continue (add_on_start pause c.synchronizer) in
    rw (e, register)
      (rw (start_all s n z m len) (state_after-calls c.synchronizer.actions c.state ∙ e, refl))

answer_short :
    (c : Context)
    → c.synchronizer.managed ≡ false
    → c.synchronizer.counter + 1 < length c.synchronizer.actions
    → answer c ≡ (
      record c { synchronizer = record c.synchronizer { counter = c.synchronizer.counter + 1 } },
      [],
    )
unfolding answer state_after
answer_short c m lt = rw (process_short c.synchronizer m lt) refl

answers_waiting :
    (k : ℕ) (c : Context)
    → c.synchronizer.managed ≡ false
    → c.synchronizer.counter + k < length c.synchronizer.actions
    → answers k c ≡ (
      record c { synchronizer = record c.synchronizer { counter = c.synchronizer.counter + k } },
      [],
    )
unfolding answers
answers_waiting zero c m lt =
    let e : c.synchronizer.counter + 0 ≡ c.synchronizer.counter = omega arith in
    λ i. (record c { synchronizer = record c.synchronizer { counter = sym e i } }, [])
answers_waiting (suc k) c m lt =
    let e : c.synchronizer.counter + 1 + k ≡ c.synchronizer.counter + suc k = omega arith in
    let s = record c.synchronizer { counter = c.synchronizer.counter + 1 } in
    rw
      (
        answer_short c m (omega arith),
        answers_waiting k (record c { synchronizer = s }) m (omega arith),
        e,
      )
      refl

answer_last :
    (c : Context)
    → length c.synchronizer.actions ≤ c.synchronizer.counter + 1
    → any is_set_initialized c.synchronizer.on_complete ≡ true
    → answer c ≡ (
      record c {
        state = initialized;
        synchronizer = record c.synchronizer { counter = c.synchronizer.counter + 1; done = true };
      },
      completed c.synchronizer.on_complete ∷ [],
    )
unfolding answer state_after
answer_last c le i = rw (process_last c.synchronizer le, i) refl

-- A created context that includes some loaders, whose synchronizer is new or reset, loads each of
-- them at its rendering, in the order of the source and each once, after the rendering is paused.
-- While an answer is missing it is loading and nothing is called; the last answer initializes it,
-- and only then continues the rendering.
pub render-answers :
    (c : Context) (n k : ℕ)
    → c.state ≡ created
    → IsReset c.synchronizer
    → length (included c) ≡ suc n
    → k < suc n
    → let (opened, calls) = render c in
      let (waiting, early) = answers k opened in
      let (last, late) = answer (answers n opened).0 in
      (calls
        ≡ started (c.synchronizer.on_start ++ pause ∷ [])
          ∷ map action_called (map load (included c)))
      × (waiting.state ≡ loading)
      × (early ≡ [])
      × (last.state ≡ initialized)
      × (late ≡ completed (set_initialized ∷ continue ∷ c.synchronizer.on_complete) ∷ [])
render-answers c n k e r len lt =
    let total : length (rendered c).actions ≡ suc n = length-map load (included c) ∙ len in
    let at_zero : (rendered c).counter ≡ 0 = r.at_zero in
    let loads = record c { state = loading; synchronizer = rendered c } in
    let early = answers_waiting k loads r.plain (omega (arith, total, at_zero)) in
    let all = answers_waiting n loads r.plain (omega (arith, total, at_zero)) in
    let done = record loads {
      synchronizer = record (rendered c) { counter = (rendered c).counter + n };
    } in
    let last = answer_last done (omega (arith, total, at_zero)) refl in
    rw (render_created c n e r len, early, all, last) (refl, refl, refl, refl, refl)
