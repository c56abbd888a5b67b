-- ===== src/Model/Modules.antt =====
-- model/ModuleTypes.ts, model/PlatformFileTypes.ts and model/PreparedConfigurationTypes.ts. The
-- configuration of an application of a module is any value; here it is its text.
use art_platform.Common.{ℕ, String, Bool, Option, List}
use art_platform.Model.States.{ModuleState}
use art_platform.Model.Resources.{ResourceIdentifier, ExternalIdentifier, ApplicationIdentifier}

pub record PlatformFileIdentifier : Type 0 where
  pub id : ℕ
  pub name : String

pub record PlatformFilePayload : Type 0 where
  pub id : PlatformFileIdentifier
  pub bytes : List ℕ

pub record PlatformFileCloneRequest : Type 0 where
  pub current_file_id : Option PlatformFileIdentifier
  pub new_file_id : PlatformFileIdentifier

pub record StringFile : Type 0 where
  pub name : String
  pub content : String

pub record PreparedConfigurationIdentifier : Type 0 where
  pub id : ℕ
  pub project_id : ℕ
  pub profile : String
  pub name : String

-- `AssembledArtifact` of model/AssemblyTypes.ts
pub record AssembledArtifact : Type 0 where
  pub name : String
  pub version : String
  pub external_id : ExternalIdentifier

pub record PortMapping : Type 0 where
  pub internal_port : ℕ
  pub external_port : ℕ

pub record ModuleUrl : Type 0 where
  pub url : Option String
  pub port : Option ℕ

pub record ProbeConfiguration : Type 0 where
  pub path : Option String
  pub liveness_probe : Option Bool
  pub readiness_probe : Option Bool

pub record ModuleApplication : Type 0 where
  pub application_id : ApplicationIdentifier
  pub application : String

pub record ModuleFile : Type 0 where
  pub name : String
  pub bytes : List ℕ

pub record ModuleConfigurationDraft : Type 0 where
  pub resource_id : ResourceIdentifier
  pub artifact : AssembledArtifact
  pub name : Option String
  pub url : Option ModuleUrl
  pub parameters : Option String
  pub count : ℕ
  pub ports : Option (List ℕ)
  pub prepared_configurations : Option (List PreparedConfigurationIdentifier)
  pub manual_configurations : Option (List StringFile)
  pub additional_files : Option (List ModuleFile)
  pub applications : Option (List ModuleApplication)
  pub has_parameters : Option Bool
  pub has_url : Option Bool
  pub has_ports : Option Bool
  pub has_string_configurations : Option Bool
  pub has_probe : Option Bool
  pub probes_configuration : Option ProbeConfiguration

pub record ModuleConfiguration : Type 0 where
  pub resource_id : ResourceIdentifier
  pub artifact : AssembledArtifact
  pub name : Option String
  pub url : Option ModuleUrl
  pub parameters : Option String
  pub count : ℕ
  pub ports : Option (List ℕ)
  pub prepared_configurations : Option (List PreparedConfigurationIdentifier)
  pub manual_configurations : Option (List StringFile)
  pub additional_files : Option (List PlatformFileIdentifier)
  pub applications : Option (List ModuleApplication)
  pub probes_configuration : Option ProbeConfiguration

pub record ModuleInformation : Type 0 where
  pub id : ℕ
  pub name : String
  pub project_id : ℕ
  pub resource_id : ResourceIdentifier
  pub internal_ip : String
  pub external_id : ExternalIdentifier
  pub artifact : AssembledArtifact
  pub parameters : Option String
  pub url : Option ModuleUrl
  pub count : ℕ
  pub ports : Option (List ℕ)
  pub port_mappings : Option (List PortMapping)
  pub prepared_configurations : Option (List PreparedConfigurationIdentifier)
  pub manual_configurations : Option (List StringFile)
  pub additional_files : Option (List PlatformFileIdentifier)
  pub state : ModuleState
  pub update_time_stamp : Option ℕ

-- `Module` is `ModuleInformation` with two more fields.
pub record Module : Type 0 where
  pub information : ModuleInformation
  pub applications : Option (List ModuleApplication)
  pub probes_configuration : Option ProbeConfiguration

pub record ModuleInstallationRequest : Type 0 where
  pub project_id : ℕ
  pub configuration : ModuleConfiguration

pub record ModuleUpdateRequest : Type 0 where
  pub module_id : ℕ
  pub new_module_configuration : ModuleConfiguration
