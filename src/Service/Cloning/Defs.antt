-- ===== src/Service/Cloning/Defs.antt =====
-- The class `ModuleCloningService`; the state is what the closures of one clone share.
use mathlib.Core.Option
use art_platform.Common.{
  ℕ, ◌+◌, Bool, true, false, Option, none, some, List, [], ◌∷◌, ◌++◌, map, if◌then◌else◌, nat_beq,
  ltb, leb, length, filter, find?, ◌==◌, string_eq,
}
use art_platform.Extensions.Arrays.{is_empty_array}
use art_platform.Model.Modules.{PlatformFileIdentifier, Module, ModuleConfigurationDraft}
use art_platform.Service.ModuleService.{
  ApiCall, allocate_file, start_module_installation, process_module_installation, upload_file,
  clone_file, with_files, files_of, AllocatedModuleFile, with_bytes,
}

pub record Cloning : Type 0 where
  pub base_module : Module
  pub configuration : ModuleConfigurationDraft
  pub additional_files : List PlatformFileIdentifier
  pub allocated_files_count : ℕ
  pub files : List AllocatedModuleFile
  pub started_module : Option Module
  pub uploaded_files_count : ℕ

-- What the platform answers; `sent` is the answer to an upload or a copy.
pub data Answer : Type 0 where
  allocated : PlatformFileIdentifier → Answer
  started : Module → Answer
  sent : Answer

-- `complete`, and the callback that `clone` gives to `#allocateFiles`: the project is that of the
-- base module, the project id that `clone` is given is not used.
unfoldable pub complete : Cloning → Cloning × List ApiCall
complete s =
    let files = map (with_bytes (files_of s.configuration)) s.additional_files in
    (
      record s { files = files },
      start_module_installation none (record {
        project_id = s.base_module.information.project_id;
        configuration = with_files s.configuration (map (λ file. file.id) files);
      })
          ∷ [],
    )

-- `#allocateFiles`, called by `clone`.
unfoldable pub begin : Module → ModuleConfigurationDraft → Cloning × List ApiCall
begin base c =
    let s : Cloning = record {
      base_module = base;
      configuration = c;
      additional_files = [];
      allocated_files_count = 0;
      files = [];
      started_module = none;
      uploaded_files_count = 0;
    } in
    if is_empty_array (some (files_of c))
    then complete s
    else (s, map (λ file. allocate_file file.name) (files_of c))

-- `Boolean(file.bytes)`: an empty buffer is true.
abbrev pub has_buffer : AllocatedModuleFile → Bool
has_buffer file = elim file.bytes [ none ↦ false | some bytes ↦ true ]

-- The calls of the loop over the files, and whether it was broken off: `baseModule.additionalFiles!`
-- has no `find` where the base module has no files.
unfoldable pub send :
    Option (List PlatformFileIdentifier) → List AllocatedModuleFile → List ApiCall × Bool
send base [] = ([], false)
send base (file ∷ files) =
    let (later, thrown) = send base files in
    let bytes = Option.get_or file.bytes [] in
    if leb (length bytes) 0
    then elim base [
      | none ↦ ([], true)
      | some current ↦ (
        clone_file (record {
          current_file_id = find? (λ f. f.name == file.id.name) current;
          new_file_id = file.id;
        })
            ∷ later,
        thrown,
      )
    ]
    else (upload_file (some file.id) bytes ∷ later, thrown)

-- The callbacks: of `allocateFile`, of `startModuleInstallation`, and of `uploadFile` and
-- `cloneFile`.
unfoldable pub answer : Answer → Cloning → Cloning × List ApiCall
answer (allocated id) s =
    let s' : Cloning = record s {
      additional_files = s.additional_files ++ id ∷ [];
      allocated_files_count = s.allocated_files_count + 1;
    } in
    if nat_beq s'.allocated_files_count (length (files_of s.configuration))
    then complete s'
    else (s', [])
answer (started m) s =
    let s' = record s { started_module = some m; uploaded_files_count = 0 } in
    let new_additional_files = filter has_buffer s.files in
    if ltb (length new_additional_files) 1
    then (s', process_module_installation m ∷ [])
    else (s', (send s.base_module.information.additional_files new_additional_files).0)
answer sent s =
    let s' = record s { uploaded_files_count = s.uploaded_files_count + 1 } in
    elim s.started_module [
      | none ↦ (s', [])
      | some m ↦
          if nat_beq s'.uploaded_files_count (length (filter has_buffer s.files))
          then (s', process_module_installation m ∷ [])
          else (s', [])
    ]

-- Answers, one after the other: what each of them calls.
unfoldable pub answers : List Answer → Cloning → Cloning × List (List ApiCall)
answers [] s = (s, [])
answers (a ∷ rest) s =
    let now = answer a s in let later = answers rest now.0 in (later.0, now.1 ∷ later.1)
