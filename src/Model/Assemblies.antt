-- ===== src/Model/Assemblies.antt =====
-- model/AssemblyTypes.ts, model/GradleTypes.ts, model/DockerTypes.ts and model/Property.ts.
use art_platform.Common.{ℕ, String, Option, List}
use art_platform.Model.States.{AssemblyState}
use art_platform.Model.Resources.{ResourceIdentifier}
use art_platform.Model.Modules.{AssembledArtifact}
use art_platform.Model.Projects.{ProjectArtifact, ProjectVersion}

pub record TextProperty : Type 0 where
  pub value : String

pub record ResourceProperty : Type 0 where
  pub value : Option String
  pub name : Option String
  pub resource_id : Option ResourceIdentifier

pub record Property : Type 0 where
  pub name : String
  pub type : String
  pub text_property : Option TextProperty
  pub resource_property : Option ResourceProperty

pub record GradleCacheConfiguration : Type 0 where
  pub server_url_property : Option String

pub record GradleAssemblyConfiguration : Type 0 where
  pub arguments : Option String
  pub version : Option String
  pub jdk_version : Option String
  pub init_script_groovy_content : Option String
  pub init_script_kotlin_content : Option String
  pub init_script_format : Option String
  pub properties : Option (List Property)
  pub cache_configuration : Option GradleCacheConfiguration

pub record GradleArtifactConfiguration : Type 0 where
  pub arguments : Option String

pub record DockerArchiveConfiguration : Type 0 where
  pub image : String
  pub container_technology : String
  pub source_paths : Option (List String)

pub record ArtifactArchiveConfiguration : Type 0 where
  pub resource_id : ResourceIdentifier
  pub archive_technology : Option String
  pub docker_configuration : Option DockerArchiveConfiguration

pub record ArtifactConfiguration : Type 0 where
  pub name : String
  pub artifact : Option ProjectArtifact
  pub archives : List ArtifactArchiveConfiguration
  pub gradle_configuration : Option GradleArtifactConfiguration

pub record AssemblyConfiguration : Type 0 where
  pub id : ℕ
  pub artifact_configurations : Option (List ArtifactConfiguration)
  pub technology : Option String
  pub gradle_configuration : Option GradleAssemblyConfiguration
  pub default_resource_id : Option ResourceIdentifier

pub record AssemblyInformation : Type 0 where
  pub id : ℕ
  pub project_id : ℕ
  pub technology : String
  pub version : ProjectVersion
  pub state : AssemblyState
  pub start_time_stamp : ℕ
  pub end_time_stamp : ℕ
  pub resource_id : ResourceIdentifier
  pub log_id : ℕ
  pub artifacts : List AssembledArtifact
