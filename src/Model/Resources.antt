-- ===== src/Model/Resources.antt =====
-- model/ResourceTypes.ts, model/ExternalTypes.ts, model/ApplicationTypes.ts,
-- model/FilebeatTypes.ts and constants/ResourceConstants.ts.
use art_platform.Common.{ℕ, String, List, [], ◌∷◌}

-- The types of resources; any other text is `other`.
pub data ResourceType : Type 0 where
  open_shift_resource artifacts_resource git_resource platform_resource proxy_resource :
      ResourceType
  other : String → ResourceType

pub record ResourceIdentifier : Type 0 where
  pub id : ℕ
  pub name : String
  pub type : ResourceType

pub record OpenShiftResource : Type 0 where
  pub id : ℕ
  pub name : String
  pub api_url : String
  pub applications_domain : String
  pub private_registry_url : String
  pub user_name : String
  pub password : String

pub record PlatformResource : Type 0 where
  pub id : ℕ
  pub name : String
  pub url : String
  pub user_name : String
  pub password : String

pub record ArtifactsResource : Type 0 where
  pub id : ℕ
  pub name : String
  pub url : String
  pub user_name : String
  pub password : String

pub record GitResource : Type 0 where
  pub id : ℕ
  pub name : String
  pub url : String
  pub user_name : String
  pub password : String

pub record ProxyResource : Type 0 where
  pub id : ℕ
  pub name : String
  pub host : String
  pub port : ℕ
  pub user_name : String
  pub password : String

pub record Resources : Type 0 where
  pub open_shift : List OpenShiftResource
  pub artifacts : List ArtifactsResource
  pub git : List GitResource
  pub platform : List PlatformResource
  pub proxy : List ProxyResource

-- `ALL_RESOURCES`
abbrev pub all_resources : List ResourceType
all_resources =
    ResourceType.artifacts_resource ∷ ResourceType.open_shift_resource ∷ ResourceType.git_resource
    ∷ ResourceType.platform_resource ∷ ResourceType.proxy_resource ∷ []

pub record ExternalIdentifier : Type 0 where
  pub id : String
  pub resource_id : ResourceIdentifier

pub data ApplicationType : Type 0 where
  filebeat_application : ApplicationType
  other : String → ApplicationType

pub record ApplicationIdentifier : Type 0 where
  pub id : ℕ
  pub name : String
  pub type : ApplicationType

pub record FilebeatApplication : Type 0 where
  pub id : ℕ
  pub name : String
  pub url : String
  pub resource_id : ResourceIdentifier

pub record Applications : Type 0 where
  pub filebeat : List FilebeatApplication
