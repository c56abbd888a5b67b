-- ===== src/Loader/Resources/Defs.antt =====
-- The classes `ResourcesLoader` and `ResourcesStore`. A store keeps the identifiers from when it was
-- made, and the object with the lists of the loader that made it. A loader has one such object, which
-- a load writes to: `object` is its number, `resources` is what it holds, and what a store reads is
-- what the object with its number holds among the loaders that there are.
use art_platform.Common.{
  ℕ, ◌+◌, Bool, true, false, Option, none, some, List, [], ◌∷◌, ◌++◌, map, if◌then◌else◌, nat_beq,
  length, filter, any, find?, string_eq, ◌==◌,
}
use mathlib.Core.Option
use art_platform.Model.Resources.{
  ResourceType, ResourceIdentifier, OpenShiftResource, ArtifactsResource, GitResource,
  PlatformResource, ProxyResource, Resources, all_resources,
}

pub record ResourcesLoader : Type 0 where
  pub loaded : Bool
  pub object : ℕ
  pub resources : Resources

pub record ResourcesStore : Type 0 where
  pub ids : List ResourceIdentifier
  -- the number of the object `#resources`
  pub resources : ℕ

abbrev pub no_resources : Resources
no_resources = record { open_shift = []; artifacts = []; git = []; platform = []; proxy = [] }

abbrev pub new_loader : ℕ → ResourcesLoader
new_loader object = record { loaded = false; object = object; resources = no_resources }

-- The identifiers of one type; a type that is not known has none.
unfoldable pub ids_of_type : ResourceType → Resources → List ResourceIdentifier
ids_of_type ResourceType.open_shift_resource r =
    map (λ x. record { id = x.id; name = x.name; type = ResourceType.open_shift_resource })
      r.open_shift
ids_of_type ResourceType.git_resource r =
    map (λ x. record { id = x.id; name = x.name; type = ResourceType.git_resource }) r.git
ids_of_type ResourceType.artifacts_resource r =
    map (λ x. record { id = x.id; name = x.name; type = ResourceType.artifacts_resource })
      r.artifacts
ids_of_type ResourceType.platform_resource r =
    map (λ x. record { id = x.id; name = x.name; type = ResourceType.platform_resource }) r.platform
ids_of_type ResourceType.proxy_resource r =
    map (λ x. record { id = x.id; name = x.name; type = ResourceType.proxy_resource }) r.proxy
ids_of_type (ResourceType.other t) r = []

-- The loop of `ids`.
unfoldable pub ids_from :
    List ResourceIdentifier → List ResourceType → Resources → List ResourceIdentifier
ids_from ids [] r = ids
ids_from ids (t ∷ types) r = ids_from (ids ++ ids_of_type t r) types r

unfoldable pub ids : List ResourceType → Resources → List ResourceIdentifier
unfolding ids_from ids_of_type
ids types r = ids_from [] types r

-- `load`, up to the calls of the API: the lists are emptied, and the count of the load is 0.
unfoldable pub load : ResourcesLoader → ResourcesLoader × ℕ
load l = (record l { loaded = false; resources = no_resources }, 0)

-- The answers to the five calls of a load.
pub data Answer : Type 0 where
  open_shift_loaded : List OpenShiftResource → Answer
  git_loaded : List GitResource → Answer
  artifacts_loaded : List ArtifactsResource → Answer
  platform_loaded : List PlatformResource → Answer
  proxy_loaded : List ProxyResource → Answer

unfoldable pub keep : Answer → Resources → Resources
keep (open_shift_loaded xs) r = record r { open_shift = xs }
keep (git_loaded xs) r = record r { git = xs }
keep (artifacts_loaded xs) r = record r { artifacts = xs }
keep (platform_loaded xs) r = record r { platform = xs }
keep (proxy_loaded xs) r = record r { proxy = xs }

-- `store`; `none` is the error that is thrown before the resources are loaded.
unfoldable pub store : ResourcesLoader → Option ResourcesStore
store l =
    if l.loaded
    then some (record { ids = ids all_resources l.resources; resources = l.object })
    else none

-- A callback of a load whose count is `count`: the lists, the count, and the store that
-- `completed` is called with.
unfoldable pub receive : Answer → ResourcesLoader → ℕ → ResourcesLoader × ℕ × Option ResourcesStore
unfolding store
receive answer l count =
    let kept = record l { resources = keep answer l.resources } in
    if nat_beq (count + 1) (length all_resources)
    then (let done = record kept { loaded = true } in (done, count + 1, store done))
    else (kept, count + 1, none)

abbrev pub type_beq : ResourceType → ResourceType → Bool
type_beq ResourceType.open_shift_resource ResourceType.open_shift_resource = true
type_beq ResourceType.artifacts_resource ResourceType.artifacts_resource = true
type_beq ResourceType.git_resource ResourceType.git_resource = true
type_beq ResourceType.platform_resource ResourceType.platform_resource = true
type_beq ResourceType.proxy_resource ResourceType.proxy_resource = true
type_beq (ResourceType.other s) (ResourceType.other t) = s == t
type_beq _ _ = false

-- `idsOf` of a store
unfoldable pub ids_of : List ResourceType → ResourcesStore → List ResourceIdentifier
ids_of types s = filter (λ id. any (λ t. type_beq t id.type) types) s.ids

-- What `resourcesOf` returns.
pub data Listed : Type 0 where
  open_shift_list : List OpenShiftResource → Listed
  git_list : List GitResource → Listed
  artifacts_list : List ArtifactsResource → Listed
  platform_list : List PlatformResource → Listed
  proxy_list : List ProxyResource → Listed
  undefined : Listed

-- What the object with a number holds.
unfoldable pub held_by : ℕ → List ResourcesLoader → Option Resources
held_by object loaders =
    Option.map (λ l. l.resources) (find? (λ l. nat_beq l.object object) loaders)

abbrev pub list_of : ResourceType → Resources → Listed
list_of ResourceType.open_shift_resource r = open_shift_list r.open_shift
list_of ResourceType.git_resource r = git_list r.git
list_of ResourceType.artifacts_resource r = artifacts_list r.artifacts
list_of ResourceType.platform_resource r = platform_list r.platform
list_of ResourceType.proxy_resource r = proxy_list r.proxy
list_of (ResourceType.other t) r = undefined

-- `resourcesOf` of a store; its object is that of a loader.
unfoldable pub resources_of : ResourceType → ResourcesStore → List ResourcesLoader → Option Listed
unfolding held_by
resources_of t s loaders = Option.map (list_of t) (held_by s.resources loaders)
