-- ===== src/Service/Updating/Defs.antt =====
-- The class `ModuleUpdatingService`; the state is what the closures of one update share.
use mathlib.Core.Option
use art_platform.Common.{
  ℕ, ◌+◌, Bool, false, not, ◌&&◌, Option, none, some, List, [], ◌∷◌, ◌++◌, map, if◌then◌else◌,
  nat_beq, ltb, length, filter, any, ◌==◌, string_eq,
}
use art_platform.Model.Modules.{
  PlatformFileIdentifier, Module, ModuleFile, ModuleConfigurationDraft,
}
use art_platform.Service.ModuleService.{
  ApiCall, allocate_file, start_module_updating, process_module_updating, upload_file, with_files,
  files_of, AllocatedModuleFile, with_bytes,
}

pub record Updating : Type 0 where
  pub base_module : Module
  pub configuration : ModuleConfigurationDraft
  pub additional_files : List PlatformFileIdentifier
  pub new_files_count : ℕ
  pub allocated_files_count : ℕ
  -- the files given to `onComplete`
  pub files : List AllocatedModuleFile
  pub started_module : Option Module
  pub uploaded_files_count : ℕ

-- What the platform answers.
pub data Answer : Type 0 where
  allocated : PlatformFileIdentifier → Answer
  started : Module → Answer
  uploaded : Answer

-- `baseModule.additionalFiles`, none where it is absent
abbrev pub base_files : Module → List PlatformFileIdentifier
base_files m = Option.get_or m.information.additional_files []

-- The files of the base module that the configuration names.
unfoldable pub kept_files : Module → ModuleConfigurationDraft → List PlatformFileIdentifier
kept_files base c = filter (λ file. any (λ f. f.name == file.name) (files_of c)) (base_files base)

-- The files with bytes of which the base module has none with the name.
unfoldable pub new_files : Module → ModuleConfigurationDraft → List ModuleFile
new_files base c =
    filter
      (λ file.
        not (nat_beq (length file.bytes) 0)
        && not (any (λ current. current.name == file.name) (base_files base)))
      (files_of c)

-- `complete`, and the callback that `update` gives to `#allocateFiles`.
unfoldable pub complete : Updating → Updating × List ApiCall
complete s =
    let files = map (with_bytes (files_of s.configuration)) s.additional_files in
    (
      record s { files = files },
      start_module_updating (record {
        module_id = s.base_module.information.id;
        new_module_configuration = with_files s.configuration (map (λ file. file.id) files);
      })
          ∷ [],
    )

-- `#allocateFiles`, called by `update`, which does not use its project id.
unfoldable pub begin : Module → ModuleConfigurationDraft → Updating × List ApiCall
begin base c =
    let s : Updating = record {
      base_module = base;
      configuration = c;
      additional_files = kept_files base c;
      new_files_count = length (new_files base c);
      allocated_files_count = 0;
      files = [];
      started_module = none;
      uploaded_files_count = 0;
    } in
    if ltb (length (new_files base c)) 1
    then complete s
    else (s, map (λ file. allocate_file file.name) (new_files base c))

-- `file.bytes && file.bytes.length > 0`
abbrev pub has_bytes : AllocatedModuleFile → Bool
has_bytes file = elim file.bytes [ none ↦ false | some bytes ↦ ltb 0 (length bytes) ]

abbrev pub upload_of : AllocatedModuleFile → ApiCall
upload_of file = upload_file (some file.id) (Option.get_or file.bytes [])

-- The callbacks: of `allocateFile`, of `startModuleUpdating` and of `uploadFile`.
unfoldable pub answer : Answer → Updating → Updating × List ApiCall
answer (allocated id) s =
    let s' : Updating = record s {
      additional_files = s.additional_files ++ id ∷ [];
      allocated_files_count = s.allocated_files_count + 1;
    } in
    if nat_beq s'.allocated_files_count s.new_files_count then complete s' else (s', [])
answer (started m) s =
    let s' = record s { started_module = some m; uploaded_files_count = 0 } in
    let new_additional_files = filter has_bytes s.files in
    if ltb (length new_additional_files) 1
    then (s', process_module_updating m ∷ [])
    else (s', map upload_of new_additional_files)
answer uploaded s =
    let s' = record s { uploaded_files_count = s.uploaded_files_count + 1 } in
    elim s.started_module [
      | none ↦ (s', [])
      | some m ↦
          if nat_beq s'.uploaded_files_count (length (filter has_bytes s.files))
          then (s', process_module_updating m ∷ [])
          else (s', [])
    ]

-- Answers, one after the other: what each of them calls.
unfoldable pub answers : List Answer → Updating → Updating × List (List ApiCall)
answers [] s = (s, [])
answers (a ∷ rest) s =
    let now = answer a s in let later = answers rest now.0 in (later.0, now.1 ∷ later.1)

-- A whole update, given what the platform answers: the calls at first, and those at each answer.
unfoldable pub run : Module → ModuleConfigurationDraft → List Answer → List (List ApiCall)
run base c given = let (s, calls) = begin base c in calls ∷ (answers given s).1
