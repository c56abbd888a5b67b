-- ===== src/Model/Projects.antt =====
-- model/ProjectTypes.ts and model/OpenShiftTypes.ts.
use art_platform.Common.{ℕ, String, Option, List}
use art_platform.Model.States.{ProjectState}
use art_platform.Model.Resources.{ResourceIdentifier, ExternalIdentifier}

pub record ProjectVersion : Type 0 where
  pub reference : String
  pub version : String

pub record ProjectArtifact : Type 0 where
  pub name : String
  pub technologies : List String
  pub versions : List ProjectVersion

pub record OpenShiftLabel : Type 0 where
  pub name : String
  pub value : String

pub record ProjectOpenShiftConfiguration : Type 0 where
  pub platform_pods_node_selector : Option (List OpenShiftLabel)

pub record ProjectNotificationsConfiguration : Type 0 where
  pub url : String
  pub additional_message : String
  pub proxy_id : Option ResourceIdentifier

pub record Project : Type 0 where
  pub id : ℕ
  pub name : String
  pub external_id : ExternalIdentifier
  pub git_resource_id : ResourceIdentifier
  pub technologies : List String
  pub state : ProjectState
  pub creation_time_stamp : ℕ
  pub versions : List ProjectVersion
  pub artifacts : List ProjectArtifact
  pub open_shift_configuration : Option ProjectOpenShiftConfiguration
  pub notifications_configuration : Option ProjectNotificationsConfiguration
