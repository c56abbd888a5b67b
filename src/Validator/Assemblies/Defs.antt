-- ===== src/Validator/Assemblies/Defs.antt =====
-- validator/AssemblyConfigurationValidator.ts. The match of a text with DOCKER_IMAGE_REGEX is that
-- of the language's regular expressions, a parameter.
use mathlib.Core.Option
use art_platform.Common.{
  Bool, true, false, not, ◌||◌, Option, none, some, String, List, [], ◌∷◌, if◌then◌else◌, ◌==◌,
  string_eq, any,
}
use art_platform.Extensions.Arrays.{is_empty_array, is_not_empty_array}
use art_platform.Extensions.Duplicates.{has_duplicates}
use art_platform.Model.Assemblies.{
  Property, GradleAssemblyConfiguration, GradleArtifactConfiguration, DockerArchiveConfiguration,
  ArtifactArchiveConfiguration, ArtifactConfiguration, AssemblyConfiguration,
}
use art_platform.Service.ModuleService.{is_filled, is_given}

abbrev pub is_present {ℓ} : {A : Type ℓ} → Option A → Bool
is_present none = false
is_present (some a) = true

-- The properties of a Gradle configuration: all are named, and no two alike.
unfoldable pub properties_are_valid : Option (List Property) → Bool
properties_are_valid none = true
properties_are_valid (some properties) =
    if is_not_empty_array (some properties)
    then not
        (any (λ p. not (is_filled p.name)) properties || has_duplicates (λ p. p.name) properties)
    else true

-- The first `switch`.
unfoldable pub technology_is_valid : String → Option GradleAssemblyConfiguration → Bool
unfolding properties_are_valid
technology_is_valid technology gradle = if technology == "gradle" then of gradle else false
  where
    of : Option GradleAssemblyConfiguration → Bool
    of none = false
    of (some g) = properties_are_valid g.properties

-- The test of the `case DOCKER` of the archives.
abbrev pub is_docker : Option String → Bool
is_docker none = false
is_docker (some t) = t == "docker"

unfoldable pub arguments_are_given : Option GradleArtifactConfiguration → Bool
arguments_are_given none = false
arguments_are_given (some g) = is_given g.arguments

module _ (docker_image_matches : String → Bool) where
  unfoldable pub docker_is_valid : Option DockerArchiveConfiguration → Bool
  docker_is_valid none = false
  docker_is_valid (some docker) =
      if not (is_filled docker.image)
        || not (docker_image_matches docker.image)
        || not (is_filled docker.container_technology)
      then false
      else sources docker.source_paths
    where
      sources : Option (List String) → Bool
      sources none = true
      sources (some paths) = if any (λ path. not (is_filled path)) paths then false else true

  -- The inner loop; `false` is the return out of both.
  unfoldable pub archives_are_valid : List ArtifactArchiveConfiguration → Bool
  unfolding docker_is_valid
  archives_are_valid [] = true
  archives_are_valid (archive ∷ archives) =
      let rest = archives_are_valid archives in
      if not (is_given archive.archive_technology)
      then false
      else (if is_docker archive.archive_technology
          then (if docker_is_valid archive.docker_configuration then rest else false)
          else false)

  -- The outer loop. Its second `switch` is on the same technology as the first.
  unfoldable pub artifacts_are_valid : String → List ArtifactConfiguration → Bool
  unfolding archives_are_valid arguments_are_given
  artifacts_are_valid technology [] = true
  artifacts_are_valid technology (a ∷ artifacts) =
      let rest = artifacts_are_valid technology artifacts in
      if not (is_filled a.name) || not (is_present a.artifact) || is_empty_array (some a.archives)
      then false
      else (if archives_are_valid a.archives
          then (if technology == "gradle"
              then (if arguments_are_given a.gradle_configuration then rest else false)
              else false)
          else false)

  -- `validateAssemblyConfiguration`
  unfoldable pub validate_assembly_configuration : AssemblyConfiguration → Bool
  unfolding technology_is_valid artifacts_are_valid
  validate_assembly_configuration c =
      if not (is_present c.default_resource_id)
        || not (is_given c.technology)
        || is_empty_array c.artifact_configurations
      then false
      else (if technology_is_valid (Option.get_or c.technology "") c.gradle_configuration
          then artifacts_are_valid (Option.get_or c.technology "")
              (Option.get_or c.artifact_configurations [])
          else false)
