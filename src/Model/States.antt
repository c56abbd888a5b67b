-- ===== src/Model/States.antt =====
-- constants/States.ts: the states of projects, assemblies, modules and load tests. The platform
-- sends a state as a text; any other text is `other`.
use art_platform.Common.{String}

pub data ProjectState : Type 0 where
  created initialized initialization_failed reload_started reloading : ProjectState
  other : String → ProjectState

pub data AssemblyState : Type 0 where
  started done failed canceled started_on_resource building restarted : AssemblyState
  other : String → AssemblyState

pub data ModuleState : Type 0 where
  installing installation_started : ModuleState
  update_started stop_started restart_started uninstall_started : ModuleState
  updating stopping restarting uninstalling : ModuleState
  not_installed invalid run stopped : ModuleState
  other : String → ModuleState

pub data LoadTestState : Type 0 where
  started done failed canceled started_on_resource running : LoadTestState
  other : String → LoadTestState
