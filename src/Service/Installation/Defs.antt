-- ===== src/Service/Installation/Defs.antt =====
-- The class `ModuleInstallationService`. One installation is one configuration; its state is what
-- the closures share.
use art_platform.Common.{
  ℕ, suc, ◌+◌, Option, none, some, List, [], ◌∷◌, ◌++◌, map, if◌then◌else◌, nat_beq, length,
  get_elem?,
}
use art_platform.Extensions.Arrays.{is_empty_array}
use art_platform.Model.Modules.{
  PlatformFileIdentifier, Module, ModuleFile, ModuleConfigurationDraft,
}
use art_platform.Service.ModuleService.{
  ApiCall, allocate_file, start_module_installation, process_module_installation, upload_file,
  create_module_name, with_files, files_of,
}

pub record Installation : Type 0 where
  pub project_id : ℕ
  pub configuration : ModuleConfigurationDraft
  pub additional_files : List PlatformFileIdentifier
  pub started_module : Option Module
  pub uploaded_files_count : ℕ

-- What the platform answers: a file has an id, the installation has started, an upload is done.
pub data Answer : Type 0 where
  allocated : PlatformFileIdentifier → Answer
  started : Module → Answer
  uploaded : Answer

-- The callback of `#allocateFiles` in `install`.
unfoldable pub start_installation : Installation → ApiCall
start_installation s =
    start_module_installation (some (create_module_name s.configuration)) (record {
      project_id = s.project_id;
      configuration = with_files s.configuration s.additional_files;
    })

-- `#allocateFiles`, called by `install`.
unfoldable pub begin : ℕ → ModuleConfigurationDraft → Installation × List ApiCall
unfolding start_installation is_empty_array
begin project configuration =
    let s : Installation = record {
      project_id = project;
      configuration = configuration;
      additional_files = [];
      started_module = none;
      uploaded_files_count = 0;
    } in
    if is_empty_array configuration.additional_files
    then (s, start_installation s ∷ [])
    else (s, map (λ file. allocate_file file.name) (files_of configuration))

-- `configuration.additionalFiles?.forEach((file, index) => ... files.additionalFiles[index] ...)`
unfoldable pub uploads_from : ℕ → List PlatformFileIdentifier → List ModuleFile → List ApiCall
uploads_from index ids [] = []
uploads_from index ids (file ∷ files) =
    upload_file (get_elem? ids index) file.bytes ∷ uploads_from (suc index) ids files

-- The callbacks: of `allocateFile`, of `startModuleInstallation` and of `uploadFile`.
unfoldable pub answer : Answer → Installation → Installation × List ApiCall
unfolding start_installation uploads_from is_empty_array
answer (allocated id) s =
    let s' = record s { additional_files = s.additional_files ++ id ∷ [] } in
    if nat_beq (length s'.additional_files) (length (files_of s.configuration))
    then (s', start_installation s' ∷ [])
    else (s', [])
answer (started m) s =
    let s' = record s { started_module = some m; uploaded_files_count = 0 } in
    if is_empty_array s.configuration.additional_files
    then (s', process_module_installation m ∷ [])
    else (s', uploads_from 0 s.additional_files (files_of s.configuration))
answer uploaded s =
    let s' = record s { uploaded_files_count = s.uploaded_files_count + 1 } in
    elim s.started_module [
      | none ↦ (s', [])
      | some m ↦
          if nat_beq s'.uploaded_files_count (length (files_of s.configuration))
          then (s', process_module_installation m ∷ [])
          else (s', [])
    ]

-- Answers, one after the other: what each of them calls.
unfoldable pub answers : List Answer → Installation → Installation × List (List ApiCall)
answers [] s = (s, [])
answers (a ∷ rest) s =
    let now = answer a s in let later = answers rest now.0 in (later.0, now.1 ∷ later.1)

-- A whole installation, given what the platform answers: the calls at first, and those at each
-- answer.
unfoldable pub run : ℕ → ModuleConfigurationDraft → List Answer → List (List ApiCall)
run project configuration given =
    let (s, calls) = begin project configuration in calls ∷ (answers given s).1

-- `install` starts one installation for each configuration.
unfoldable pub install : ℕ → List ModuleConfigurationDraft → List (Installation × List ApiCall)
install project configurations = map (begin project) configurations
