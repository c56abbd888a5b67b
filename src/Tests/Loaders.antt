-- ===== src/Tests/Loaders.antt =====
-- Loads with their answers out of order.
use mathlib.Core.List.Permᴰ
use mathlib.Core.List.{Permᴰ}
use art_platform.Common.{List, ◌≢◌, ◌≡◌, refl, true, false, some, [], ◌∷◌}
use art_platform.Model.Resources.{
  ResourceType, GitResource, Resources, FilebeatApplication, all_resources,
}
use art_platform.Loader.Resources as Resources
use art_platform.Loader.Resources.Loading.{reload, reload_lem}
use art_platform.Loader.Resources.Stores.{ids_of-store}
use art_platform.Loader.Resources.Stale.{reload_at, ids_of-resources_of}
use art_platform.Loader.Applications as Applications
use art_platform.Loader.Applications.{receive_lem, HasId}
use art_platform.Tests.Data.{cluster}

abbrev git : GitResource
git = record { id = 7; name = "code"; url = "https://git"; user_name = "u"; password = "p" }

abbrev listed : Resources
listed = record { open_shift = []; artifacts = []; git = git ∷ []; platform = []; proxy = [] }

-- The answer with the repositories comes first.
reload_lem_example :
    reload
      (Resources.git_loaded (git ∷ [])
        ∷ Resources.open_shift_loaded []
        ∷ Resources.artifacts_loaded []
        ∷ Resources.platform_loaded []
        ∷ Resources.proxy_loaded []
        ∷ [])
      (Resources.new_loader 1)
    ≡ (
      record { loaded = true; object = 1; resources = listed },
      record { ids = Resources.ids all_resources listed; resources = 1 } ∷ [],
    )
reload_lem_example =
    reload_lem [] (git ∷ []) [] [] []
      (Resources.git_loaded (git ∷ [])
        ∷ Resources.open_shift_loaded []
        ∷ Resources.artifacts_loaded []
        ∷ Resources.platform_loaded []
        ∷ Resources.proxy_loaded []
        ∷ [])
      (Resources.new_loader 1) (Permᴰ.swap refl refl)

abbrev git_loader : Resources.ResourcesLoader
git_loader = record { loaded = true; object = 1; resources = listed }

abbrev git_store : Resources.ResourcesStore
git_store = record { ids = Resources.ids all_resources listed; resources = 1 }

stored : Resources.store git_loader ≡ some git_store
unfolding Resources.store
stored = refl

ids_of-store_example :
    Resources.ids_of (ResourceType.git_resource ∷ []) git_store
    ≡ Resources.ids (ResourceType.git_resource ∷ []) listed
ids_of-store_example = ids_of-store ResourceType.git_resource git_loader git_store stored

-- The loader with one repository loads again, and there is none; another loader is new.
abbrev loaders : List Resources.ResourcesLoader
loaders = Resources.new_loader 2 ∷ git_loader ∷ []

abbrev no_answers : List Resources.Answer
no_answers =
    Resources.open_shift_loaded []
    ∷ Resources.git_loaded []
    ∷ Resources.artifacts_loaded []
    ∷ Resources.platform_loaded []
    ∷ Resources.proxy_loaded []
    ∷ []

ids_of-resources_of_example :
    (Resources.resources_of ResourceType.git_resource git_store loaders
      ≡ some (Resources.git_list (git ∷ [])))
    × (Resources.resources_of ResourceType.git_resource git_store (reload_at no_answers 1 loaders)
        ≡ some (Resources.git_list []))
    × (Resources.ids_of (ResourceType.git_resource ∷ []) git_store
        ≡ Resources.ids (ResourceType.git_resource ∷ []) listed)
    × ((t : ResourceType) (other : Resources.ResourcesStore)
        → other.resources ≢ 1
        → Resources.resources_of t other (reload_at no_answers 1 loaders)
          ≡ Resources.resources_of t other loaders)
ids_of-resources_of_example =
    ids_of-resources_of [] [] [] [] [] no_answers (Permᴰ.refl _) loaders git_loader git_store refl
      stored

abbrev beat : FilebeatApplication
beat = record { id = 4; name = "beat"; url = "https://beat"; resource_id = cluster }

abbrev empty_loader : Applications.ApplicationsLoader
empty_loader = record { loaded = false; applications = record { filebeat = [] } }
