-- ===== src/Loader/Resources/Stale.antt =====
-- A store that was made before another load of its loader, which is one of several.
use mathlib.Core.List.{Permᴰ}
use mathlib.Core.Option
use art_platform.Common.{
  ℕ, ◌≡◌, ◌≢◌, refl, ap, ◌∙◌, some, List, [], ◌∷◌, map, arith, find?, nat_beq, nat_beq_iff,
  if◌then◌else◌, Bool-cases, inl, inr,
}
use art_platform.Model.Resources.{
  ResourceType, OpenShiftResource, ArtifactsResource, GitResource, PlatformResource, ProxyResource,
  Resources,
}
use art_platform.Loader.Resources.Defs.{
  ResourcesLoader, ResourcesStore, Answer, open_shift_loaded, git_loaded, artifacts_loaded,
  platform_loaded, proxy_loaded, ids, store, ids_of, held_by, list_of, resources_of, git_list,
}
use art_platform.Loader.Resources.Loading.{reload, reload_lem}
use art_platform.Loader.Resources.Stores.{ids_of-store}

-- The loader with an object loads again.
unfoldable pub reload_at : List Answer → ℕ → List ResourcesLoader → List ResourcesLoader
reload_at answers object loaders =
    map (λ l. if nat_beq l.object object then (reload answers l).0 else l) loaders

store-object :
    (l : ResourcesLoader) (s : ResourcesStore) → store l ≡ some s → s.resources ≡ l.object
unfolding store
store-object l s h = elim (Bool-cases l.loaded) [
  | inl done ↦ ground arith
  | inr not_yet ↦ absurd (ground arith)
]

module _ (o : List OpenShiftResource) (g : List GitResource) (a : List ArtifactsResource)
    (p : List PlatformResource) (x : List ProxyResource) (answers : List Answer)
    (perm : Permᴰ
      (open_shift_loaded o
        ∷ git_loaded g
        ∷ artifacts_loaded a
        ∷ platform_loaded p
        ∷ proxy_loaded x
        ∷ [])
      answers) where
  abbrev answered : Resources
  answered = record { open_shift = o; artifacts = a; git = g; platform = p; proxy = x }

  held_by-reload_at :
      (object : ℕ) (loaders : List ResourcesLoader)
      → held_by object (reload_at answers object loaders)
        ≡ Option.map (λ r. answered) (held_by object loaders)
  unfolding held_by reload_at
  held_by-reload_at object [] = refl
  held_by-reload_at object (l ∷ loaders) =
      ground (arith, reload_lem o g a p x answers l perm, held_by-reload_at object loaders)

  held_by-others :
      (other object : ℕ) (loaders : List ResourcesLoader)
      → other ≢ object
      → held_by other (reload_at answers object loaders) ≡ held_by other loaders
  unfolding held_by reload_at
  held_by-others other object [] ne = refl
  held_by-others other object (l ∷ loaders) ne = ground (
    arith,
    reload_lem o g a p x answers l perm,
    nat_beq_iff l.object other,
    nat_beq_iff l.object object,
    held_by-others other object loaders ne,
  )

  -- Among several loaders, one that has loaded makes a store and then loads again, with its five
  -- answers in any order. The store gave the repositories of the loader before; after the load it
  -- gives the repositories that were answered, and still the old identifiers. What the stores of the
  -- other loaders give is as it was.
  pub ids_of-resources_of :
      (loaders : List ResourcesLoader) (l : ResourcesLoader) (s : ResourcesStore)
      → find? (λ k. nat_beq k.object l.object) loaders ≡ some l
      → store l ≡ some s
      → (resources_of ResourceType.git_resource s loaders ≡ some (git_list l.resources.git))
        × (resources_of ResourceType.git_resource s (reload_at answers l.object loaders)
            ≡ some (git_list g))
        × (ids_of (ResourceType.git_resource ∷ []) s
            ≡ ids (ResourceType.git_resource ∷ []) l.resources)
        × ((t : ResourceType) (other : ResourcesStore)
            → other.resources ≢ l.object
            → resources_of t other (reload_at answers l.object loaders)
              ≡ resources_of t other loaders)
  unfolding resources_of held_by
  ids_of-resources_of loaders l s found stored =
      let own : s.resources ≡ l.object = store-object l s stored in
      let git = list_of ResourceType.git_resource in
      let held : held_by l.object loaders ≡ some l.resources =
        ap (Option.map (λ k. k.resources)) found in
      (
        ap (λ n. Option.map git (held_by n loaders)) own ∙ ap (Option.map git) held,
        ap (λ n. Option.map git (held_by n (reload_at answers l.object loaders))) own
            ∙ ap (Option.map git) (held_by-reload_at l.object loaders)
            ∙ ap (λ h. Option.map git (Option.map (λ r. answered) h)) held,
        ids_of-store ResourceType.git_resource l s stored,
        λ t other ne.
            ap (Option.map (list_of t)) (held_by-others other.resources l.object loaders ne),
      )
