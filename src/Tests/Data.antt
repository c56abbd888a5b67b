-- ===== src/Tests/Data.antt =====
-- Small configurations, modules and files, which the tests of the services, the loaders and the
-- validators share.
use art_platform.Common.{true, false, Option, none, some, List, [], ◌∷◌}
use art_platform.Model.States.{ModuleState}
use art_platform.Model.Resources.{ResourceType, ResourceIdentifier}
use art_platform.Model.Assemblies.{AssemblyConfiguration}
use art_platform.Model.Modules.{
  PlatformFileIdentifier, AssembledArtifact, ModuleFile, ModuleConfigurationDraft, Module,
}

abbrev pub cluster : ResourceIdentifier
cluster = record { id = 1; name = "cluster"; type = ResourceType.open_shift_resource }

abbrev pub artifact : AssembledArtifact
artifact = record {
  name = "shop";
  version = "1.0";
  external_id = record { id = "shop/1.0"; resource_id = cluster };
}

-- A draft with the given files.
abbrev pub draft : Option (List ModuleFile) → ModuleConfigurationDraft
draft files = record {
  resource_id = cluster;
  artifact = artifact;
  name = some "shop";
  url = none;
  parameters = none;
  count = 1;
  ports = some (8080 ∷ 8081 ∷ []);
  prepared_configurations = none;
  manual_configurations = none;
  additional_files = files;
  applications = none;
  has_parameters = none;
  has_url = some false;
  has_ports = some true;
  has_string_configurations = none;
  has_probe = none;
  probes_configuration = none;
}

abbrev pub module_with : Option (List PlatformFileIdentifier) → Module
module_with files = record {
  information = record {
    id = 5;
    name = "shop";
    project_id = 3;
    resource_id = cluster;
    internal_ip = "10.0.0.1";
    external_id = record { id = "shop"; resource_id = cluster };
    artifact = artifact;
    parameters = none;
    url = none;
    count = 1;
    ports = none;
    port_mappings = none;
    prepared_configurations = none;
    manual_configurations = none;
    additional_files = files;
    state = ModuleState.run;
    update_time_stamp = none;
  };
  applications = none;
  probes_configuration = none;
}

abbrev pub certificate : ModuleFile
certificate = record { name = "certificate"; bytes = 1 ∷ 2 ∷ [] }

abbrev pub key : ModuleFile
key = record { name = "key"; bytes = 3 ∷ [] }

abbrev pub certificate_id : PlatformFileIdentifier
certificate_id = record { id = 10; name = "certificate" }

abbrev pub key_id : PlatformFileIdentifier
key_id = record { id = 11; name = "key" }

abbrev pub assembly : AssemblyConfiguration
assembly = record {
  id = 1;
  artifact_configurations = some [];
  technology = some "gradle";
  gradle_configuration = none;
  default_resource_id = some cluster;
}
