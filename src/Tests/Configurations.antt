-- ===== src/Tests/Configurations.antt =====
-- The validators on a small module and a small assembly.
use art_platform.Common.{◌≡◌, ◌↔◌, true, false, refl, none, []}
use art_platform.Validator.Modules.{
  Regexps, validate_module_configuration, name_valid, parameters_valid, ports_valid, url_valid,
  configuration_files_valid,
}
use art_platform.Service.ModuleService.{create_module_name}
use art_platform.Extensions.Duplicates.{has_duplicates}
use art_platform.Extensions.Maps.{new_set, contains}
use art_platform.Extensions.Arrays.{is_empty_array, is_not_empty_array}
use art_platform.Validator.Modules.Rules.{ValidModule, validate_module_configuration_iff}
use art_platform.Validator.Assemblies.{validate_assembly_configuration}
use art_platform.Validator.Assemblies.Rules.{ValidAssembly, validate_assembly_configuration_iff}
use art_platform.Tests.Data.{draft, assembly}

-- Every text matches.
abbrev lenient : Regexps
lenient = record { entity_name = λ text. true; url = λ text. true; config_file_name = λ text. true }

validate_module_configuration_iff_example :
    (validate_module_configuration lenient (draft none) 3 [] ≡ true)
    ↔ ValidModule lenient (draft none) 3 []
validate_module_configuration_iff_example =
    validate_module_configuration_iff lenient (draft none) 3 []

validate_assembly_configuration_iff_example :
    (validate_assembly_configuration (λ image. true) assembly ≡ true)
    ↔ ValidAssembly (λ image. true) assembly
validate_assembly_configuration_iff_example =
    validate_assembly_configuration_iff (λ image. true) assembly

-- A module with two ports is accepted, an assembly without artifacts is not.
accepted : validate_module_configuration lenient (draft none) 3 [] ≡ true
unfolding validate_module_configuration name_valid parameters_valid ports_valid url_valid
    configuration_files_valid create_module_name has_duplicates new_set is_not_empty_array contains
accepted = refl

refused : validate_assembly_configuration (λ image. true) assembly ≡ false
unfolding validate_assembly_configuration is_empty_array
refused = refl
