-- ===== src/Validator/Modules/Rules.antt =====
-- The rules for the configuration of a module, stated on the data, and that the validator decides
-- them.
use Prim.Native.String.{count}
use mathlib.Core.Option
use art_platform.Common.{
  ℕ, ◌≡◌, ◌↔◌, ◌≢◌, ◌<◌, ◌⊎◌, Bool, true, false, ◌&&◌, Option, none, some, String, List, [], ◌∷◌,
  map, ◌==◌, ==_iff, nat_eq, string_eq, all, any, arith, All, Bool-cases, inl, inr,
}
use art_platform.Extensions.Arrays.{is_not_empty_array}
use art_platform.Extensions.Duplicates.{AllDiffer, has_duplicates-id_iff}
use art_platform.Model.Modules.{ModuleConfigurationDraft, ModuleInformation, ModuleUrl, StringFile}
use art_platform.Service.ModuleService.{is_filled, is_given, create_module_name}
use art_platform.Validator.Assemblies.Rules.{Filled, NotEmpty, Given, is_filled_iff}
use art_platform.Validator.Modules.Defs.{
  Regexps, flag, is_nonzero, name_valid, url_is_valid, url_valid, manual_configurations_valid,
  configuration_files_valid, parameters_valid, ports_are_valid, ports_valid,
  validate_module_configuration,
}

-- No module of the project has the name.
abbrev pub Unused : String → ℕ → List ModuleInformation → Type 0
Unused name project_id modules = All (λ m. m.name ≡ name → m.project_id ≢ project_id) modules

abbrev pub ValidPorts : List ℕ → Type 0
ValidPorts ports = NotEmpty ports × All (λ p. p ≢ 0) ports × AllDiffer ports

module _ (matches : Regexps) where
  abbrev pub ValidFiles : List StringFile → Type 0
  ValidFiles files =
      NotEmpty files
      × All (λ f. Filled f.name × (matches.config_file_name f.name ≡ true) × Filled f.content) files
      × AllDiffer (map (λ f. f.name) files)

  abbrev pub ValidUrl : ModuleUrl → Type 0
  ValidUrl u = Given (λ p. p ≢ 0) u.port × Given (λ s. matches.url s ≡ true) u.url

  abbrev pub ValidName : String → ℕ → List ModuleInformation → Type 0
  ValidName name project_id modules =
      Filled name
      × (matches.entity_name name ≡ true)
      × (count name < 63)
      × Unused name project_id modules

  abbrev pub ValidConfigurations : ModuleConfigurationDraft → Type 0
  ValidConfigurations c =
      Given ValidFiles c.manual_configurations ⊎ Given NotEmpty c.prepared_configurations

  -- What a configuration must have; all but the name only where its flag is set.
  abbrev pub ValidModule : ModuleConfigurationDraft → ℕ → List ModuleInformation → Type 0
  ValidModule c project_id modules =
      ValidName (create_module_name c) project_id modules
      × (flag c.has_parameters ≡ true → Given Filled c.parameters)
      × (flag c.has_ports ≡ true → Given ValidPorts c.ports)
      × (flag c.has_url ≡ true → Given ValidUrl c.url)
      × (flag c.has_string_configurations ≡ true → ValidConfigurations c)

all_five :
    {a b c d e : Bool} {A B C D E : Type 0}
    → (a ≡ true) ↔ A
    → (b ≡ true) ↔ B
    → (c ≡ true) ↔ C
    → (d ≡ true) ↔ D
    → (e ≡ true) ↔ E
    → ((a && b && c && d && e) ≡ true) ↔ (A × B × C × D × E)
all_five p q r s t = ground arith

is_given_iff : (o : Option String) → (is_given o ≡ true) ↔ Given Filled o
is_given_iff none = ground arith
is_given_iff (some s) = is_filled_iff s

is_not_empty_array_iff :
    {A : Type 0} (o : Option (List A)) → (is_not_empty_array o ≡ true) ↔ Given NotEmpty o
unfolding is_not_empty_array
is_not_empty_array_iff none = ground arith
is_not_empty_array_iff (some []) = ground arith
is_not_empty_array_iff (some (x ∷ xs)) = ground arith

all-is_nonzero : (ports : List ℕ) → (all is_nonzero ports ≡ true) ↔ All (λ p. p ≢ 0) ports
all-is_nonzero [] = ground arith
all-is_nonzero (p ∷ ports) = ground (arith, ==_iff p 0, all-is_nonzero ports)

ports_are_valid_iff :
    (o : Option (List ℕ)) → (ports_are_valid (Option.get_or o []) ≡ true) ↔ Given ValidPorts o
unfolding ports_are_valid is_not_empty_array
ports_are_valid_iff none = ground arith
ports_are_valid_iff (some []) = ground arith
ports_are_valid_iff (some (p ∷ ports)) =
    ground (arith, all-is_nonzero (p ∷ ports), has_duplicates-id_iff (p ∷ ports))

is_Unused_iff :
    (name : String) (project_id : ℕ) (ms : List ModuleInformation)
    → (any (λ m. m.name == name && m.project_id == project_id) ms ≡ false)
      ↔ Unused name project_id ms
is_Unused_iff name project_id [] = ground arith
is_Unused_iff name project_id (m ∷ ms) =
    ground
      (arith, ==_iff m.name name, ==_iff m.project_id project_id, is_Unused_iff name project_id ms)

module _ (matches : Regexps) where
  name_valid_iff :
      (name : String) (project_id : ℕ) (ms : List ModuleInformation)
      → (name_valid matches name project_id ms ≡ true) ↔ ValidName matches name project_id ms
  unfolding name_valid
  name_valid_iff name project_id ms =
      ground (arith, is_filled_iff name, is_Unused_iff name project_id ms)

  url_is_valid_iff :
      (o : Option ModuleUrl) → (url_is_valid matches o ≡ true) ↔ Given (ValidUrl matches) o
  unfolding url_is_valid
  url_is_valid_iff none = ground arith
  url_is_valid_iff (some u) = of_fields u.port u.url
    where
      of_fields :
          (p : Option ℕ) (t : Option String)
          → (url_is_valid matches (some (record { url = t; port = p })) ≡ true)
            ↔ ValidUrl matches (record { url = t; port = p })
      of_fields none t = ground arith
      of_fields (some p) none = ground arith
      of_fields (some p) (some t) = ground (arith, ==_iff p 0)

  all-files :
      (files : List StringFile)
      → (all (λ f. is_filled f.name && matches.config_file_name f.name && is_filled f.content) files
          ≡ true)
        ↔ All
            (λ f. Filled f.name × (matches.config_file_name f.name ≡ true) × Filled f.content)
            files
  all-files [] = ground arith
  all-files (f ∷ files) =
      ground (arith, is_filled_iff f.name, is_filled_iff f.content, all-files files)

  manual_configurations_valid_iff :
      (o : Option (List StringFile))
      → (manual_configurations_valid matches (Option.get_or o []) ≡ true)
        ↔ Given (ValidFiles matches) o
  unfolding manual_configurations_valid is_not_empty_array
  manual_configurations_valid_iff none = ground arith
  manual_configurations_valid_iff (some []) = ground arith
  manual_configurations_valid_iff (some (f ∷ files)) = ground (
    arith,
    all-files (f ∷ files),
    has_duplicates-id_iff (map (λ (f : StringFile). f.name) (f ∷ files)),
  )

  parameters_valid_iff :
      (c : ModuleConfigurationDraft)
      → (parameters_valid c ≡ true) ↔ (flag c.has_parameters ≡ true → Given Filled c.parameters)
  unfolding parameters_valid
  parameters_valid_iff c = ground (arith, is_given_iff c.parameters)

  ports_valid_iff :
      (c : ModuleConfigurationDraft)
      → (ports_valid c ≡ true) ↔ (flag c.has_ports ≡ true → Given ValidPorts c.ports)
  unfolding ports_valid
  ports_valid_iff c = elim (Bool-cases (flag c.has_ports)) [
    | inl given ↦ ground (arith, ports_are_valid_iff c.ports)
    | inr absent ↦ ground arith
  ]

  url_valid_iff :
      (c : ModuleConfigurationDraft)
      → (url_valid matches c ≡ true) ↔ (flag c.has_url ≡ true → Given (ValidUrl matches) c.url)
  unfolding url_valid
  url_valid_iff c = elim (Bool-cases (flag c.has_url)) [
    | inl given ↦ ground (arith, url_is_valid_iff c.url)
    | inr absent ↦ ground arith
  ]

  configuration_files_valid_iff :
      (c : ModuleConfigurationDraft)
      → (configuration_files_valid matches c ≡ true)
        ↔ (flag c.has_string_configurations ≡ true → ValidConfigurations matches c)
  unfolding configuration_files_valid
  configuration_files_valid_iff c = ground (
    arith,
    manual_configurations_valid_iff c.manual_configurations,
    is_not_empty_array_iff c.prepared_configurations,
  )

  -- The validator accepts exactly the configurations that meet the rules, for the project and the
  -- modules that there are.
  pub validate_module_configuration_iff :
      (c : ModuleConfigurationDraft) (project_id : ℕ) (modules : List ModuleInformation)
      → (validate_module_configuration matches c project_id modules ≡ true)
        ↔ ValidModule matches c project_id modules
  unfolding validate_module_configuration
  validate_module_configuration_iff c project_id modules =
      all_five (name_valid_iff (create_module_name c) project_id modules) (parameters_valid_iff c)
        (ports_valid_iff c) (url_valid_iff c) (configuration_files_valid_iff c)
