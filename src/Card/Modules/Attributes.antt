-- ===== src/Card/Modules/Attributes.antt =====
-- `#attributes`: the list of facts that the card of a module shows. The icons are the values that
-- they show; the words of the parameters are not split. The free name `module` that one condition
-- reads is not the module of the card: whether it is there is an argument.
use art_platform.Common.{
  ℕ, ◌≡◌, refl, Bool, true, false, not, ◌&&◌, ◌||◌, Option, none, some, String, List, [], ◌∷◌, ◌++◌,
  map, filter, find?, if◌then◌else◌, ◌==◌, nat_eq, nat_beq, length, arith,
}
use art_platform.Model.States.{ModuleState}
use art_platform.Model.Resources.{ResourceType, ApplicationIdentifier}
use art_platform.Model.Modules.{
  ModuleInformation, Module, ModuleUrl, PortMapping, AssembledArtifact,
  PreparedConfigurationIdentifier, StringFile, PlatformFileIdentifier, ModuleApplication,
}
use art_platform.Service.ModuleService.{is_filled}
use art_platform.Service.ModuleStates.{
  translate_module_state_to_human, calculate_module_state_chip_styles,
}

pub data Attribute : Type 0 where
  project_of url_value internal_ip version_of parameters_of : String → Attribute
  url_port_of : PortMapping → Attribute
  ports_of : List PortMapping → Attribute
  count_of update_time_stamp_of : ℕ → Attribute
  artifact_of : AssembledArtifact → Attribute
  resource_of : String → ResourceType → Attribute
  id_on_resource : String → Attribute
  configurations_of : List PreparedConfigurationIdentifier → List StringFile → Attribute
  files_of : List PlatformFileIdentifier → Attribute
  applications_of : List ApplicationIdentifier → Attribute
  state_chip : String → String → Attribute

-- `isNotEmptyArray`
abbrev pub not_empty {ℓ} : {A : Type ℓ} → Option (List A) → Bool
not_empty none = false
not_empty (some xs) = not (nat_beq (length xs) 0)

-- `mapping.internalPort == url?.port`
abbrev pub at_url_port : Option ModuleUrl → PortMapping → Bool
at_url_port none mapping = false
at_url_port (some url) mapping = elim url.port [
  | none ↦ false
  | some port ↦ mapping.internal_port == port
]

abbrev is_installing : ModuleState → Bool
is_installing ModuleState.installing = true
is_installing _ = false

-- The attributes of the URL, where it is given and a port is mapped for it.
unfoldable pub url_attributes : ModuleState → Option ModuleUrl → List PortMapping → List Attribute
url_attributes state none mappings = []
url_attributes state (some url) mappings = elim url.url [
  | none ↦ []
  | some text ↦ elim (find? (at_url_port (some url)) mappings) [
    | none ↦ []
    | some mapping ↦
        if not (is_installing state) && is_filled text
        then url_value text ∷ url_port_of mapping ∷ []
        else []
  ]
]

unfoldable pub port_attributes : Option ModuleUrl → List PortMapping → List Attribute
port_attributes url mappings =
    let without_url = filter (λ mapping. not (at_url_port url mapping)) mappings in
    if nat_beq (length without_url) 0 then [] else ports_of without_url ∷ []

-- `preparedConfigurations!.map` and `manualConfigurations!.map`: `none` where one of them is called
-- on what is not there.
unfoldable pub configuration_attributes :
    Option (List PreparedConfigurationIdentifier)
    → Option (List StringFile)
    → Option (List Attribute)
configuration_attributes none none = some []
configuration_attributes none (some manual) = if not_empty (some manual) then none else some []
configuration_attributes (some prepared) none = if not_empty (some prepared) then none else some []
configuration_attributes (some prepared) (some manual) =
    if not_empty (some prepared)
    then some (configurations_of prepared manual ∷ [])
    else (if not_empty (some manual)
        then some (configurations_of prepared manual ∷ [])
        else some [])

-- An attribute that is added under a condition on an optional list.
abbrev listed {ℓ} : {A : Type ℓ} → (List A → Attribute) → Option (List A) → List Attribute
listed f none = []
listed f (some xs) = if not_empty (some xs) then f xs ∷ [] else []

abbrev parameter_attributes : Option String → List Attribute
parameter_attributes none = []
parameter_attributes (some text) = if is_filled text then parameters_of text ∷ [] else []

abbrev time_attributes : Option ℕ → List Attribute
time_attributes none = []
time_attributes (some time) = if nat_beq time 0 then [] else update_time_stamp_of time ∷ []

abbrev application_attributes : Option (List ModuleApplication) → List Attribute
application_attributes = listed (λ xs. applications_of (map (λ a. a.application_id) xs))

-- What stands before the configurations, and after them.
unfoldable pub first_attributes :
    Bool → String → ModuleInformation → List PortMapping → List Attribute
unfolding url_attributes port_attributes
first_attributes module_there project m mappings =
    (project_of project ∷ [])
    ++ (url_attributes m.state m.url mappings
        ++ (port_attributes m.url mappings
            ++ ((if module_there
                  then count_of m.count
                    ∷ version_of m.artifact.version
                    ∷ artifact_of m.artifact
                    ∷ []
                  else [])
                ++ ((resource_of m.resource_id.name m.resource_id.type
                      ∷ id_on_resource m.external_id.id
                      ∷ [])
                    ++ ((if is_filled m.internal_ip then internal_ip m.internal_ip ∷ [] else [])
                        ++ (parameter_attributes m.parameters
                            ++ time_attributes m.update_time_stamp))))))

unfoldable pub last_attributes : Module → List Attribute
unfolding translate_module_state_to_human calculate_module_state_chip_styles
last_attributes m =
    listed files_of m.information.additional_files
    ++ (application_attributes m.applications
        ++ state_chip (translate_module_state_to_human m.information.state)
            (calculate_module_state_chip_styles m.information.state)
          ∷ [])

-- `#attributes`: `none` where it throws.
unfoldable pub attributes : Bool → String → Module → Option (List Attribute)
attributes module_there project m = elim m.information.port_mappings [
  | none ↦ none
  | some mappings ↦
      elim (configuration_attributes m.information.prepared_configurations
        m.information.manual_configurations) [
          | none ↦ none
          | some configurations ↦ some (
              first_attributes module_there project m.information mappings
              ++ (configurations ++ last_attributes m))
        ]
]

abbrev pub is_missing {ℓ} : {A : Type ℓ} → Option A → Bool
is_missing none = true
is_missing (some a) = false

configuration_attributes-missing :
    (prepared : Option (List PreparedConfigurationIdentifier)) (manual : Option (List StringFile))
    → is_missing (configuration_attributes prepared manual)
      ≡ ((is_missing prepared && not_empty manual) || (is_missing manual && not_empty prepared))
unfolding configuration_attributes
configuration_attributes-missing none none = refl
configuration_attributes-missing none (some manual) = ground arith
configuration_attributes-missing (some prepared) none = ground arith
configuration_attributes-missing (some prepared) (some manual) = ground arith

-- The attributes throw exactly where the mappings of the ports are missing, or where one of the two
-- lists of configurations is missing and the other is not empty.
pub attributes_thrown :
    (module_there : Bool) (project : String) (m : Module)
    → is_missing (attributes module_there project m) ≡ (
        is_missing m.information.port_mappings
        || ((is_missing m.information.prepared_configurations
              && not_empty m.information.manual_configurations)
            || (is_missing m.information.manual_configurations
                && not_empty m.information.prepared_configurations)))
unfolding attributes
attributes_thrown module_there project m = ground (
  arith,
  configuration_attributes-missing m.information.prepared_configurations
      m.information.manual_configurations,
)
