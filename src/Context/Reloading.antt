-- ===== src/Context/Reloading.antt =====
-- A context that loads nothing, one that is rendered while it loads, and one that is loaded anew.
use art_platform.Common.{ℕ, suc, ◌≡◌, refl, ap, ◌∙◌, false, [], ◌∷◌, ◌++◌, map, length, length-map}
use art_platform.Pattern.Synchronizer.{action_called, started, completed, reset}
use art_platform.Context.Defs.{
  created, loading, initialized, Loader, applications, assemblies, modules, projects, resources,
  prepared_configurations, load, pause, continue, set_initialized, Context, include, reload,
  state_after, render,
}
use art_platform.Context.Loading.{
  included, IsReset, rendered, opened, start_none, render_created, render_loading,
}

-- A created context that includes no loader is initialized by its rendering at once, which loads
-- nothing and pauses nothing.
pub render_nothing :
    (c : Context)
    → c.state ≡ created
    → IsReset c.synchronizer
    → included c ≡ []
    → let (opened, calls) = render c in
      (opened.state ≡ initialized)
      × (calls ≡ completed (set_initialized ∷ continue ∷ c.synchronizer.on_complete) ∷ [])
unfolding render state_after
render_nothing c e r none =
    rw (opened c e r, start_none (rendered c) r.at_zero (ap (map load) none)) (refl, refl)

-- A rendering that comes before the first answer calls every load again, with the pause twice, and
-- the context keeps loading.
pub render-render :
    (c : Context) (n : ℕ)
    → c.state ≡ created
    → IsReset c.synchronizer
    → length (included c) ≡ suc n
    → let (again, calls) = render (render c).0 in
      (again.state ≡ loading)
      × (calls
          ≡ started ((c.synchronizer.on_start ++ pause ∷ []) ++ pause ∷ [])
            ∷ map action_called (map load (included c)))
render-render c n e r len = rw (render_created c n e r len) (
    render_loading (record c { state = loading; synchronizer = rendered c }) n refl r.at_zero
      r.plain (length-map load (included c) ∙ len))

-- A context is ready for `render-answers` when it was made and given any loaders to include, and
-- after a reload whatever it did before.
pub include-IsReset :
    (loader : Loader) (c : Context)
    → IsReset c.synchronizer
    → IsReset (include loader c).synchronizer
unfolding include
include-IsReset applications c r = r
include-IsReset assemblies c r = r
include-IsReset modules c r = r
include-IsReset projects c r = r
include-IsReset resources c r = r
include-IsReset prepared_configurations c r = r

pub reload-IsReset :
    (c : Context)
    → c.synchronizer.managed ≡ false
    → IsReset (reload c).synchronizer
      × ((reload c).state ≡ created)
      × (included (reload c) ≡ included c)
unfolding reload reset
reload-IsReset c m = (record { no_actions = refl; at_zero = refl; plain = m }, refl, refl)
