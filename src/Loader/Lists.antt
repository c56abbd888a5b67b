-- ===== src/Loader/Lists.antt =====
-- loader/ProjectsLoader.ts, loader/ModulesLoader.ts, loader/AssembliesLoader.ts and
-- loader/PreparedConfigurationsLoader.ts: the four loaders of one list, which differ in the list
-- and in the function of the API that is called.
use art_platform.Common.{Bool, true, false, List, [], filter}
use art_platform.Model.States.{ProjectState}
use art_platform.Model.Projects.{Project}
use art_platform.Model.Modules.{ModuleInformation, PreparedConfigurationIdentifier}
use art_platform.Model.Assemblies.{AssemblyInformation}

-- The fields `#loaded` and the list.
pub record ListLoader {ℓ} (T : Type ℓ) : Type ℓ where
  pub loaded : Bool
  pub values : List T

abbrev pub ProjectsLoader : Type 0
ProjectsLoader = ListLoader Project

abbrev pub ModulesLoader : Type 0
ModulesLoader = ListLoader ModuleInformation

abbrev pub AssembliesLoader : Type 0
AssembliesLoader = ListLoader AssemblyInformation

abbrev pub PreparedConfigurationsLoader : Type 0
PreparedConfigurationsLoader = ListLoader PreparedConfigurationIdentifier

module _ {ℓ} {T : Type ℓ} where
  -- `load`, up to the call of the API.
  unfoldable pub load : ListLoader T → ListLoader T
  load l = record l { loaded = false; values = [] }

  -- Its callback: the new state, and what `completed` is called with.
  unfoldable pub receive : List T → ListLoader T → ListLoader T × List T
  receive answer l = let l' = record l { values = answer; loaded = true } in (l', l'.values)

abbrev pub is_initialized : ProjectState → Bool
is_initialized ProjectState.initialized = true
is_initialized _ = false

-- `getInitialized`
unfoldable pub get_initialized : ProjectsLoader → List Project
get_initialized l = filter (λ project. is_initialized project.state) l.values
