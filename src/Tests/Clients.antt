-- ===== src/Tests/Clients.antt =====
-- A client with two streams, a page that loads two lists, and three events of modules.
use mathlib.Core.List.{Perm}
use art_platform.Common.{
  ℕ, ◌≡◌, ◌≤◌, refl, true, false, String, List, [], ◌∷◌, ◌++◌, any, arith, string_eq, nat_eq,
}
use art_platform.Extensions.Maps.{get, set, delete, add, remove, has_key, contains, Unique}
use art_platform.Client.Chunks.{requests, sent_chunks, is_complete, requests_lem}
use art_platform.Client.Subscriptions as Subscriptions
use art_platform.Client.Subscriptions.Tracked.{dispose-run}
use art_platform.Client.Connection as Connection
use art_platform.Context as Context
use art_platform.Context.Loading as Loading
use art_platform.Pattern.Synchronizer as Synchronizer
use art_platform.Pattern.Stream.{added, updated, deleted}
use art_platform.Events.Activator as Activator
use art_platform.Events.Order.{bare, run-new_activator}

abbrev chunks : List ℕ
chunks = 7 ∷ 8 ∷ 9 ∷ []

-- Three chunks, of which the socket requests two, and then two more.
requests_lem_example :
    ((requests (2 ∷ 2 ∷ []) chunks).0 ≡ [])
    × (sent_chunks (requests (2 ∷ 2 ∷ []) chunks).1 ≡ chunks)
    × (any is_complete (requests (2 ∷ 2 ∷ []) chunks).1 ≡ true)
requests_lem_example = requests_lem (2 ∷ 2 ∷ []) chunks

-- A stream that a disposal cancels and that completes after it, and two others, one of which is
-- cancelled.
abbrev streams : List (Subscriptions.Event String)
streams =
    Subscriptions.subscribes 1 "logs" 8
    ∷ Subscriptions.disposes
    ∷ Subscriptions.subscribes 2 "modules" 8
    ∷ Subscriptions.completes 1
    ∷ Subscriptions.subscribes 3 "projects" 8
    ∷ Subscriptions.cancels 2
    ∷ []

dispose-run_example :
    ((Subscriptions.dispose (Subscriptions.run streams Subscriptions.new_client).0).1
      ≡ Subscriptions.cancelled "projects" ∷ Subscriptions.closed ∷ [])
    × Unique {A = String} ("projects" ∷ [])
    × ((Subscriptions.dispose
          (Subscriptions.run streams Subscriptions.new_client).0).0.subscriptions
        ≡ [])
unfolding Subscriptions.run Subscriptions.step Subscriptions.subscribe Subscriptions.cancel
    Subscriptions.dispose Subscriptions.drop_subscription get set delete add remove has_key contains
dispose-run_example = dispose-run streams (refl, refl, (refl, refl, (refl, refl, tt)))

-- Two connections that are begun before the first is answered, and a failure.
abbrev connections : List Connection.Event
connections =
    Connection.connects "main"
    ∷ Connection.connects "main"
    ∷ Connection.succeeds false
    ∷ Connection.succeeds false
    ∷ Connection.fails
    ∷ []

run-intervals_example :
    (Connection.intervals (Connection.run connections Connection.new_connection).1 ≤ 1)
    × (Connection.intervals (Connection.run connections Connection.new_connection).1
        ≡ Connection.timers (Connection.run connections Connection.new_connection).0)
run-intervals_example = Connection.run-intervals connections

-- A context of modules and projects.
abbrev page : Context.Context
page = record Context.new_context { with_modules = true; with_projects = true }

page-IsReset : Loading.IsReset page.synchronizer
page-IsReset = record { no_actions = refl; at_zero = refl; plain = refl }

render-answers_example :
    ((Context.render page).1
      ≡ Synchronizer.started (Context.pause ∷ [])
        ∷ Synchronizer.action_called (Context.load Context.modules)
        ∷ Synchronizer.action_called (Context.load Context.projects)
        ∷ [])
    × ((Context.answers 1 (Context.render page).0).0.state ≡ Context.loading)
    × ((Context.answers 1 (Context.render page).0).1 ≡ [])
    × ((Context.answer (Context.answers 1 (Context.render page).0).0).0.state ≡ Context.initialized)
    × ((Context.answer (Context.answers 1 (Context.render page).0).0).1
        ≡ Synchronizer.completed (Context.set_initialized ∷ Context.continue ∷ []) ∷ [])
render-answers_example = Loading.render-answers page 1 1 refl page-IsReset refl (omega arith)

-- An addition and an update that wait for their projects, and a deletion.
abbrev module_events : List (Activator.Event ℕ)
module_events =
    Activator.received added 5
    ∷ Activator.received updated 5
    ∷ Activator.received deleted 5
    ∷ Activator.answered 1 "shop"
    ∷ []

run-new_activator_example :
    Perm
      (bare (Activator.run module_events Activator.new_activator).1
        ++ (Activator.run module_events Activator.new_activator).0.waiting)
      ((added, 5) ∷ (updated, 5) ∷ (deleted, 5) ∷ [])
run-new_activator_example = run-new_activator module_events
