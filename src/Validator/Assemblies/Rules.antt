-- ===== src/Validator/Assemblies/Rules.antt =====
-- The rules for the configuration of an assembly, stated on the data, and that the validator
-- decides them.
use art_platform.Common.{
  ◌≡◌, ◌↔◌, ◌≢◌, refl, Bool, true, false, not, Option, none, some, String, List, [], ◌∷◌, map,
  arith, ◌==◌, ==_iff, string_eq, any, All, Bool-cases, inl, inr,
}
use art_platform.Extensions.Arrays.{is_empty_array, is_not_empty_array}
use art_platform.Extensions.Duplicates.{AllDiffer, has_duplicates_iff}
use art_platform.Model.Assemblies.{
  Property, GradleAssemblyConfiguration, GradleArtifactConfiguration, DockerArchiveConfiguration,
  ArtifactArchiveConfiguration, ArtifactConfiguration, AssemblyConfiguration,
}
use art_platform.Service.ModuleService.{is_filled, is_given}
use art_platform.Validator.Assemblies.Defs.{
  properties_are_valid, technology_is_valid, docker_is_valid, archives_are_valid,
  arguments_are_given, artifacts_are_valid, validate_assembly_configuration, is_present, is_docker,
}

-- A value that is there, and satisfies `P`.
abbrev pub Given {ℓ} : {A : Type ℓ} → (A → Type 0) → Option A → Type 0
Given P none = ⊥
Given P (some a) = P a

-- A value that satisfies `P` where it is there.
abbrev pub IfGiven {ℓ} : {A : Type ℓ} → (A → Type 0) → Option A → Type 0
IfGiven P none = Unit
IfGiven P (some a) = P a

abbrev pub Filled : String → Type 0
Filled s = s ≢ ""

abbrev pub NotEmpty {ℓ} : {A : Type ℓ} → List A → Type ℓ
NotEmpty xs = xs ≢ []

pub is_filled_iff : (s : String) → (is_filled s ≡ true) ↔ Filled s
is_filled_iff s = ground (arith, ==_iff s "")

any-not-Filled :
    {A : Type 0} (f : A → String) (xs : List A)
    → (any (λ x. not (is_filled (f x))) xs ≡ false) ↔ All (λ x. Filled (f x)) xs
any-not-Filled f [] = ground arith
any-not-Filled f (x ∷ xs) = ground (arith, is_filled_iff (f x), any-not-Filled f xs)

abbrev pub ValidProperties : List Property → Type 0
ValidProperties ps = All (λ p. Filled p.name) ps × AllDiffer (map (λ p. p.name) ps)

properties_are_valid_iff :
    (ps : Option (List Property)) → (properties_are_valid ps ≡ true) ↔ IfGiven ValidProperties ps
unfolding properties_are_valid is_not_empty_array
properties_are_valid_iff none = ground arith
properties_are_valid_iff (some []) = ground arith
properties_are_valid_iff (some (p ∷ ps)) = ground (
  arith,
  any-not-Filled (λ p. p.name) (p ∷ ps),
  has_duplicates_iff (λ (p : Property). p.name) (p ∷ ps),
)

abbrev pub ValidGradle : GradleAssemblyConfiguration → Type 0
ValidGradle g = IfGiven ValidProperties g.properties

technology_is_valid_iff :
    (t : String) (g : Option GradleAssemblyConfiguration)
    → (technology_is_valid t g ≡ true) ↔ ((t ≡ "gradle") × Given ValidGradle g)
unfolding technology_is_valid
technology_is_valid_iff t none = ground arith
technology_is_valid_iff t (some g) =
    ground (arith, ==_iff t "gradle", properties_are_valid_iff g.properties)

abbrev pub ValidArguments : GradleArtifactConfiguration → Type 0
ValidArguments g = Given Filled g.arguments

is_docker_iff : (o : Option String) → (is_docker o ≡ true) ↔ (o ≡ some "docker")
is_docker_iff none = ground arith
is_docker_iff (some t) = ground (arith, ==_iff t "docker")

is_docker-given : (o : Option String) → is_docker o ≡ true → is_given o ≡ true
is_docker-given none h = ground arith
is_docker-given (some t) h = rw ((==_iff t "docker").0 h)

is_present_iff : {A : Type 0} (o : Option A) → (is_present o ≡ true) ↔ Given (λ a. Unit) o
is_present_iff none = ground arith
is_present_iff (some a) = ground arith

is_empty_array_iff : {A : Type 0} (xs : List A) → (is_empty_array (some xs) ≡ false) ↔ NotEmpty xs
unfolding is_empty_array
is_empty_array_iff [] = ground arith
is_empty_array_iff (x ∷ xs) = ground arith

arguments_are_given_iff :
    (o : Option GradleArtifactConfiguration)
    → (arguments_are_given o ≡ true) ↔ Given ValidArguments o
unfolding arguments_are_given
arguments_are_given_iff none = ground arith
arguments_are_given_iff (some g) =
    elim (g.arguments) as (λ x. (is_given x ≡ true) ↔ Given Filled x) [
      | none ↦ ground arith
      | some s ↦ is_filled_iff s
    ]

is_empty_array-none : is_empty_array {A = ArtifactConfiguration} none ≡ true
unfolding is_empty_array
is_empty_array-none = refl

module _ (docker_image_matches : String → Bool) where
  abbrev pub ValidDocker : DockerArchiveConfiguration → Type 0
  ValidDocker d =
      Filled d.image
      × (docker_image_matches d.image ≡ true)
      × Filled d.container_technology
      × IfGiven (All Filled) d.source_paths

  abbrev pub ValidArchive : ArtifactArchiveConfiguration → Type 0
  ValidArchive a = (a.archive_technology ≡ some "docker") × Given ValidDocker a.docker_configuration

  abbrev pub ValidArtifact : ArtifactConfiguration → Type 0
  ValidArtifact a =
      Filled a.name
      × Given (λ p. Unit) a.artifact
      × NotEmpty a.archives
      × All ValidArchive a.archives
      × Given ValidArguments a.gradle_configuration

  abbrev pub ValidAssembly : AssemblyConfiguration → Type 0
  ValidAssembly c =
      Given (λ id. Unit) c.default_resource_id
      × (c.technology ≡ some "gradle")
      × Given ValidGradle c.gradle_configuration
      × Given (λ xs. NotEmpty xs × All ValidArtifact xs) c.artifact_configurations

  docker_is_valid_iff :
      (o : Option DockerArchiveConfiguration)
      → (docker_is_valid docker_image_matches o ≡ true) ↔ Given ValidDocker o
  unfolding docker_is_valid
  docker_is_valid_iff none = ground arith
  docker_is_valid_iff (some d) =
      elim (d.source_paths)
        as (λ p.
          (docker_is_valid docker_image_matches (some (record d { source_paths = p })) ≡ true)
          ↔ ValidDocker (record d { source_paths = p })) [
            | none ↦ ground (arith, is_filled_iff d.image, is_filled_iff d.container_technology)
            | some paths ↦ ground (
              arith,
              is_filled_iff d.image,
              is_filled_iff d.container_technology,
              any-not-Filled (λ s. s) paths,
            )
          ]

  archives_are_valid_iff :
      (xs : List ArtifactArchiveConfiguration)
      → (archives_are_valid docker_image_matches xs ≡ true) ↔ All ValidArchive xs
  unfolding archives_are_valid
  archives_are_valid_iff [] = ground arith
  archives_are_valid_iff (a ∷ xs) = ground (
    arith,
    is_docker_iff a.archive_technology,
    is_docker-given a.archive_technology,
    docker_is_valid_iff a.docker_configuration,
    archives_are_valid_iff xs,
  )

  artifacts_are_valid_iff :
      (t : String) (xs : List ArtifactConfiguration)
      → t ≡ "gradle"
      → (artifacts_are_valid docker_image_matches t xs ≡ true) ↔ All ValidArtifact xs
  unfolding artifacts_are_valid
  artifacts_are_valid_iff t [] e = ground arith
  artifacts_are_valid_iff t (a ∷ xs) e = ground (
    arith,
    ==_iff t "gradle",
    is_filled_iff a.name,
    is_present_iff a.artifact,
    is_empty_array_iff a.archives,
    archives_are_valid_iff a.archives,
    arguments_are_given_iff a.gradle_configuration,
    artifacts_are_valid_iff t xs e,
  )

  -- The validator's answer where the two optional fields that it reads are known.
  of_fields :
      (c : AssemblyConfiguration) (t : Option String) (xs : Option (List ArtifactConfiguration))
      → let c' = record c { technology = t; artifact_configurations = xs } in
        (validate_assembly_configuration docker_image_matches c' ≡ true) ↔ ValidAssembly c'
  unfolding validate_assembly_configuration
  of_fields c none xs = ground arith
  of_fields c (some t) none = ground (arith, is_empty_array-none)
  of_fields c (some t) (some xs) = elim (Bool-cases (t == "gradle")) [
    | inl gradle ↦ rw ((==_iff t "gradle").0 gradle) (
        ground (
          arith,
          is_present_iff c.default_resource_id,
          is_empty_array_iff xs,
          technology_is_valid_iff "gradle" c.gradle_configuration,
          artifacts_are_valid_iff "gradle" xs refl,
        ))
    | inr other_technology ↦
        ground (arith, technology_is_valid_iff t c.gradle_configuration, ==_iff t "gradle")
  ]

  -- The validator accepts exactly the configurations that meet the rules.
  pub validate_assembly_configuration_iff :
      (c : AssemblyConfiguration)
      → (validate_assembly_configuration docker_image_matches c ≡ true) ↔ ValidAssembly c
  unfolding validate_assembly_configuration
  validate_assembly_configuration_iff c = of_fields c c.technology c.artifact_configurations
