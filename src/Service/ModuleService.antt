-- ===== src/Service/ModuleService.antt =====
-- service/ModuleService.ts and service/AssemblyService.ts (`moduleIsChanging` is in ModuleStates),
-- and what the services for modules share: the calls of the file and the module API. A call is
-- asynchronous: its answer comes as an event, in any order that the API allows.
use Prim.Native.String.{◌++◌ as text_append}
use art_platform.Common.{
  ℕ, Bool, true, false, Option, none, some, String, List, [], if◌then◌else◌, ◌==◌, string_eq, find?,
}
use mathlib.Core.Option
use art_platform.Model.States.{AssemblyState}
use art_platform.Model.Assemblies.{AssemblyInformation}
use art_platform.Model.Modules.{
  PlatformFileIdentifier, PlatformFileCloneRequest, Module, ModuleFile, ModuleConfigurationDraft,
  ModuleConfiguration, ModuleInstallationRequest, ModuleUpdateRequest,
}

-- The test of `assemblyIsRunning` on the state.
abbrev pub state_is_running : AssemblyState → Bool
state_is_running AssemblyState.building = true
state_is_running AssemblyState.restarted = true
state_is_running AssemblyState.started_on_resource = true
state_is_running _ = false

-- `assemblyIsRunning`
unfoldable pub assembly_is_running : Option AssemblyInformation → Bool
assembly_is_running none = false
assembly_is_running (some a) = state_is_running a.state

-- The truth of a text, and of one that may be absent.
abbrev pub is_filled : String → Bool
is_filled s = if s == "" then false else true

abbrev pub is_given : Option String → Bool
is_given none = false
is_given (some s) = is_filled s

-- `createModuleName`
unfoldable pub create_module_name : ModuleConfigurationDraft → String
create_module_name c =
    if is_given c.name
    then Option.get_or c.name ""
    else text_append c.artifact.name (text_append "-" c.artifact.version)

-- What the services ask of the platform.
pub data ApiCall : Type 0 where
  allocate_file : String → ApiCall
  -- the name that `install` puts beside the request
  start_module_installation : Option String → ModuleInstallationRequest → ApiCall
  process_module_installation : Module → ApiCall
  start_module_updating : ModuleUpdateRequest → ApiCall
  process_module_updating : Module → ApiCall
  -- the id may be `undefined`
  upload_file : Option PlatformFileIdentifier → List ℕ → ApiCall
  clone_file : PlatformFileCloneRequest → ApiCall

-- `{...configuration, additionalFiles}`. The flags of the draft that the spread copies too are no
-- fields of `ModuleConfiguration`.
abbrev pub with_files : ModuleConfigurationDraft → List PlatformFileIdentifier → ModuleConfiguration
with_files c files = record {
  resource_id = c.resource_id;
  artifact = c.artifact;
  name = c.name;
  url = c.url;
  parameters = c.parameters;
  count = c.count;
  ports = c.ports;
  prepared_configurations = c.prepared_configurations;
  manual_configurations = c.manual_configurations;
  additional_files = some files;
  applications = c.applications;
  probes_configuration = c.probes_configuration;
}

-- `configuration.additionalFiles || []`
abbrev pub files_of : ModuleConfigurationDraft → List ModuleFile
files_of c = Option.get_or c.additional_files []

pub record AllocatedModuleFile : Type 0 where
  pub id : PlatformFileIdentifier
  pub bytes : Option (List ℕ)

-- `configuration.additionalFiles?.find(newFile => newFile.name == file.name)?.bytes`
unfoldable pub bytes_for : List ModuleFile → PlatformFileIdentifier → Option (List ℕ)
bytes_for files id = Option.map (λ f. f.bytes) (find? (λ f. f.name == id.name) files)

abbrev pub with_bytes : List ModuleFile → PlatformFileIdentifier → AllocatedModuleFile
with_bytes files id = record { id = id; bytes = bytes_for files id }
