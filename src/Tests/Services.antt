-- ===== src/Tests/Services.antt =====
-- Runs of the services for modules.
use art_platform.Common.{
  List, ◌≡◌, refl, true, none, some, [], ◌∷◌, ◌++◌, map, length, filter, replicate, All, get_elem?,
  arith, string_eq,
}
use art_platform.Model.Modules.{ModuleFile, ModuleConfigurationDraft}
use art_platform.Service.ModuleService.{
  ApiCall, allocate_file, start_module_installation, process_module_installation,
  start_module_updating, upload_file, create_module_name, with_files, with_bytes,
  AllocatedModuleFile,
}
use art_platform.Service.Installation as Installation
use art_platform.Service.Updating as Updating
use art_platform.Service.Cloning as Cloning
use art_platform.Service.Installation.Runs.{run_installation}
use art_platform.Service.Installation.Uploads.{get_elem?-run}
use art_platform.Service.Updating.Runs.{run_updating, all_files, uploading}
use art_platform.Service.Updating.Uploads.{uploads_own, UploadsOwn}
use art_platform.Service.Cloning.Runs.{answers_started_clone, sending}
use art_platform.Service.Cloning.Sent.{request_for, send_thrown}
use art_platform.Tests.Data.{draft, module_with, certificate, key, certificate_id, key_id}

abbrev two_files : ModuleConfigurationDraft
two_files = draft (some (certificate ∷ key ∷ []))

run_installation_example :
    Installation.run 3 two_files (
      Installation.allocated key_id
      ∷ (map Installation.allocated (certificate_id ∷ [])
          ++ Installation.started (module_with none) ∷ replicate 2 Installation.uploaded))
    ≡ map (λ (file : ModuleFile). allocate_file file.name) (certificate ∷ key ∷ [])
      ∷ (replicate 1 []
          ++ (start_module_installation (some (create_module_name two_files)) (record {
            project_id = 3;
            configuration = with_files two_files (key_id ∷ certificate_id ∷ []);
          })
              ∷ [])
            ∷ Installation.uploads_from 0 (key_id ∷ certificate_id ∷ []) (certificate ∷ key ∷ [])
            ∷ (replicate 1 [] ++ (process_module_installation (module_with none) ∷ []) ∷ []))
run_installation_example =
    run_installation 3 two_files certificate (key ∷ []) key_id (certificate_id ∷ [])
      (module_with none) refl refl

-- The ids came in the other order: the certificate is uploaded under the id of the key.
get_elem?-run_example :
    let calls = Installation.run 3 two_files (
      Installation.allocated key_id
      ∷ (map Installation.allocated (certificate_id ∷ [])
          ++ Installation.started (module_with none) ∷ [])) in
    (asked uploads : List ApiCall) × (get_elem? calls 0 ≡ some asked)
    × (get_elem? asked 0 ≡ some (allocate_file certificate.name))
    × (get_elem? calls 3 ≡ some uploads)
    × (get_elem? uploads 0 ≡ some (upload_file (some key_id) certificate.bytes))
get_elem?-run_example =
    get_elem?-run 0 3 two_files certificate certificate (key ∷ []) key_id key_id
      (certificate_id ∷ []) (module_with none) refl refl refl refl

one_new :
    length (
      Updating.new_files
        (module_with (some (certificate_id ∷ [])))
        (draft (some (certificate ∷ key ∷ []))))
    ≡ 1
unfolding Updating.new_files
one_new = refl

run_updating_example :
    let base = module_with (some (certificate_id ∷ [])) in
    let c = draft (some (certificate ∷ key ∷ [])) in
    let sent = filter Updating.has_bytes (all_files base c (key_id ∷ [])) in
    Updating.run base c (
      Updating.allocated key_id
      ∷ (map Updating.allocated []
          ++ Updating.started base ∷ replicate (length sent) Updating.uploaded))
    ≡ map (λ file. allocate_file file.name) (Updating.new_files base c)
      ∷ (replicate 0 []
          ++ (start_module_updating (record {
            module_id = 5;
            new_module_configuration =
                with_files c
                  (map (λ (file : AllocatedModuleFile). file.id) (all_files base c (key_id ∷ [])));
          })
              ∷ [])
            ∷ uploading base sent)
run_updating_example =
    run_updating (module_with (some (certificate_id ∷ []))) (draft (some (certificate ∷ key ∷ [])))
      key_id [] (module_with (some (certificate_id ∷ []))) one_new

uploads_own_example : All (UploadsOwn (certificate ∷ key ∷ [])) (
    map Updating.upload_of (
      filter Updating.has_bytes
        (map (with_bytes (certificate ∷ key ∷ [])) (key_id ∷ certificate_id ∷ []))))
uploads_own_example = uploads_own (certificate ∷ key ∷ []) (key_id ∷ certificate_id ∷ [])

abbrev updating : Updating.Updating
updating = record {
  base_module = module_with (some (certificate_id ∷ []));
  configuration = draft (some (certificate ∷ key ∷ []));
  additional_files = certificate_id ∷ key_id ∷ [];
  new_files_count = 1;
  allocated_files_count = 1;
  files = map (with_bytes (certificate ∷ key ∷ [])) (certificate_id ∷ key_id ∷ []);
  started_module = none;
  uploaded_files_count = 0;
}

abbrev cloning : Cloning.Cloning
cloning = record {
  base_module = module_with (some (certificate_id ∷ []));
  configuration = draft (some (key ∷ []));
  additional_files = key_id ∷ [];
  allocated_files_count = 1;
  files = map (with_bytes (key ∷ [])) (key_id ∷ []);
  started_module = none;
  uploaded_files_count = 0;
}

answers_started_clone_example :
    let files = filter Cloning.has_buffer cloning.files in
    (Cloning.answers
      (Cloning.started (module_with none) ∷ replicate (length files) Cloning.sent)
      cloning).1
    ≡ sending (certificate_id ∷ []) (module_with none) files
answers_started_clone_example =
    answers_started_clone (module_with none) cloning (certificate_id ∷ []) refl

abbrev filled_file : AllocatedModuleFile
filled_file = record { id = key_id; bytes = some (3 ∷ []) }

abbrev empty_file : AllocatedModuleFile
empty_file = record { id = certificate_id; bytes = some [] }

send_thrown_example :
    Cloning.send none ((filled_file ∷ []) ++ empty_file ∷ (filled_file ∷ []))
    ≡ (map (request_for []) (filled_file ∷ []), true)
send_thrown_example =
    send_thrown (filled_file ∷ []) (filled_file ∷ []) empty_file ((omega arith), tt) refl
