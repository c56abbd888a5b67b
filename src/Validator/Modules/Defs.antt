-- ===== src/Validator/Modules/Defs.antt =====
-- The conditions of `validateModuleConfiguration`, one by one.
use Prim.Native.String.{count}
use mathlib.Core.Option
use art_platform.Common.{
  ℕ, Bool, false, not, ◌&&◌, ◌||◌, Option, none, some, String, List, [], map, ◌==◌, nat_eq,
  string_eq, all, any, ltb,
}
use art_platform.Extensions.Arrays.{is_not_empty_array}
use art_platform.Extensions.Duplicates.{has_duplicates}
use art_platform.Model.Modules.{ModuleConfigurationDraft, ModuleInformation, ModuleUrl, StringFile}
use art_platform.Service.ModuleService.{is_filled, is_given, create_module_name}

-- `MAX_MODULE_NAME_SIZE`
abbrev pub max_module_name_size : ℕ
max_module_name_size = 63

-- The truth of an optional flag, and of a number.
abbrev pub flag : Option Bool → Bool
flag none = false
flag (some b) = b

abbrev pub is_nonzero : ℕ → Bool
is_nonzero n = not (n == 0)

-- The regular expressions of constants/Regexps.ts that the validator matches with.
pub record Regexps : Type 0 where
  pub entity_name : String → Bool
  pub url : String → Bool
  pub config_file_name : String → Bool

module _ (matches : Regexps) where
  -- `nameValid`. A name that matches has only characters of one unit, so that its length is the
  -- number of its characters.
  unfoldable pub name_valid : String → ℕ → List ModuleInformation → Bool
  name_valid name project_id modules =
      is_filled name
      && matches.entity_name name
      && ltb (count name) max_module_name_size
      && not (any (λ m. m.name == name && m.project_id == project_id) modules)

  -- `urlValid` where there is a URL
  unfoldable pub url_is_valid : Option ModuleUrl → Bool
  url_is_valid none = false
  url_is_valid (some u) = port u.port && url u.url
    where
      port : Option ℕ → Bool
      port none = false
      port (some p) = is_nonzero p

      url : Option String → Bool
      url none = false
      url (some s) = matches.url s

  unfoldable pub url_valid : ModuleConfigurationDraft → Bool
  unfolding url_is_valid
  url_valid c = not (flag c.has_url) || url_is_valid c.url

  unfoldable pub manual_configurations_valid : List StringFile → Bool
  manual_configurations_valid files =
      is_not_empty_array (some files)
      && (all (λ f. is_filled f.name && matches.config_file_name f.name && is_filled f.content)
            files
          && not (has_duplicates (λ name. name) (map (λ f. f.name) files)))

  unfoldable pub configuration_files_valid : ModuleConfigurationDraft → Bool
  unfolding manual_configurations_valid
  configuration_files_valid c =
      not (flag c.has_string_configurations)
      || manual_configurations_valid (Option.get_or c.manual_configurations [])
      || is_not_empty_array c.prepared_configurations

unfoldable pub parameters_valid : ModuleConfigurationDraft → Bool
parameters_valid c = not (flag c.has_parameters) || is_given c.parameters

unfoldable pub ports_are_valid : List ℕ → Bool
ports_are_valid ports =
    is_not_empty_array (some ports) && (all is_nonzero ports && not (has_duplicates (λ p. p) ports))

unfoldable pub ports_valid : ModuleConfigurationDraft → Bool
unfolding ports_are_valid
ports_valid c = not (flag c.has_ports) || ports_are_valid (Option.get_or c.ports [])

-- `validateModuleConfiguration`
unfoldable pub validate_module_configuration :
    Regexps → ModuleConfigurationDraft → ℕ → List ModuleInformation → Bool
validate_module_configuration matches c project_id modules =
    name_valid matches (create_module_name c) project_id modules
    && parameters_valid c
    && ports_valid c
    && url_valid matches c
    && configuration_files_valid matches c
