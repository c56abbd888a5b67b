-- ===== src/Service/Updating/Runs.antt =====
-- What an update asks of the platform.
use art_platform.Common.{
  ℕ, zero, suc, ◌+◌, ◌≡◌, ◌≢◌, ◌<◌, refl, ap, none, some, List, [], ◌∷◌, ◌++◌, map, append_assoc,
  arith, length, filter, replicate,
}
use art_platform.Model.Modules.{PlatformFileIdentifier, Module, ModuleConfigurationDraft}
use art_platform.Service.ModuleService.{
  ApiCall, allocate_file, start_module_updating, process_module_updating, with_files, files_of,
  AllocatedModuleFile, with_bytes,
}
use art_platform.Service.Updating.Defs.{
  Updating, Answer, allocated, started, uploaded, kept_files, new_files, complete, begin, has_bytes,
  upload_of, answer, answers, run,
}

abbrev initial : Module → ModuleConfigurationDraft → Updating
initial base c = record {
  base_module = base;
  configuration = c;
  additional_files = kept_files base c;
  new_files_count = length (new_files base c);
  allocated_files_count = 0;
  files = [];
  started_module = none;
  uploaded_files_count = 0;
}

begin_files :
    (base : Module) (c : ModuleConfigurationDraft)
    → 0 < length (new_files base c)
    → begin base c ≡ (initial base c, map (λ file. allocate_file file.name) (new_files base c))
unfolding begin
begin_files base c h = ground arith

answer_allocated_more :
    (id : PlatformFileIdentifier) (s : Updating)
    → s.allocated_files_count + 1 ≢ s.new_files_count
    → answer (allocated id) s ≡ (
      record s {
        additional_files = s.additional_files ++ id ∷ [];
        allocated_files_count = s.allocated_files_count + 1;
      },
      [],
    )
unfolding answer
answer_allocated_more id s ne = ground arith

answer_allocated_last :
    (id : PlatformFileIdentifier) (s : Updating)
    → s.allocated_files_count + 1 ≡ s.new_files_count
    → answer (allocated id) s
      ≡ complete (record s {
        additional_files = s.additional_files ++ id ∷ [];
        allocated_files_count = s.allocated_files_count + 1;
      })
unfolding answer
answer_allocated_last id s e = ground arith

-- The ids of the new files are kept behind the files that stay, in the order of the answers. Only
-- the last of them completes the allocation.
answers_allocated :
    (ids : List PlatformFileIdentifier) (id : PlatformFileIdentifier) (later : List Answer)
    (s : Updating)
    → s.allocated_files_count + suc (length ids) ≡ s.new_files_count
    → let t : Updating = record s {
      additional_files = s.additional_files ++ id ∷ ids;
      allocated_files_count = s.new_files_count;
    } in
      (answers (allocated id ∷ (map allocated ids ++ later)) s).1
      ≡ replicate (length ids) [] ++ (complete t).1 ∷ (answers later (complete t).0).1
unfolding answers
answers_allocated [] id later s e = rw (answer_allocated_last id s (omega arith), e)
answers_allocated (i ∷ ids) id later s e = rw (answer_allocated_more id s (omega arith)) (
    rw
      (answers_allocated ids i later
        (record s {
          additional_files = s.additional_files ++ id ∷ [];
          allocated_files_count = s.allocated_files_count + 1;
        })
        (omega arith))
      (rw (append_assoc s.additional_files (id ∷ []) (i ∷ ids))))

answers_uploaded :
    (n : ℕ) (m : Module) (s : Updating)
    → s.started_module ≡ some m
    → s.uploaded_files_count + suc n ≡ length (filter has_bytes s.files)
    → (answers (replicate (suc n) uploaded) s).1
      ≡ replicate n [] ++ (process_module_updating m ∷ []) ∷ []
unfolding answers answer
answers_uploaded zero m s h e = ground arith
answers_uploaded (suc n) m s h e = ground (
  arith,
  answers_uploaded n m (record s { uploaded_files_count = s.uploaded_files_count + 1 }) h
      (omega arith),
)

answer_started_none :
    (m : Module) (s : Updating)
    → filter has_bytes s.files ≡ []
    → (answer (started m) s).1 ≡ process_module_updating m ∷ []
unfolding answer
answer_started_none m s e = ground arith

answer_started_some :
    (m : Module) (s : Updating) (f : AllocatedModuleFile) (fs : List AllocatedModuleFile)
    → filter has_bytes s.files ≡ f ∷ fs
    → answer (started m) s ≡ (
      record s { started_module = some m; uploaded_files_count = 0 },
      map upload_of (filter has_bytes s.files),
    )
unfolding answer
answer_started_some m s f fs e = ground arith

-- The calls at the start and at each answer after it: the files are uploaded at the start, and the
-- platform goes on at the answer to the last upload, or at the start where there is nothing to upload.
abbrev pub uploading : Module → List AllocatedModuleFile → List (List ApiCall)
uploading m [] = (process_module_updating m ∷ []) ∷ []
uploading m (f ∷ fs) =
    map upload_of (f ∷ fs) ∷ (replicate (length fs) [] ++ (process_module_updating m ∷ []) ∷ [])

answers_started_as :
    (m : Module) (s : Updating) (sent : List AllocatedModuleFile)
    → filter has_bytes s.files ≡ sent
    → (answers (started m ∷ replicate (length sent) uploaded) s).1 ≡ uploading m sent
unfolding answers
answers_started_as m s [] e = rw (answer_started_none m s e)
answers_started_as m s (f ∷ fs) e =
    let t : Updating = record s { started_module = some m; uploaded_files_count = 0 } in
    rw (answer_started_some m s f fs e)
      (rw (answers_uploaded (length fs) m t refl (omega (arith, ap length e))) (rw (e)))

-- After the start an update uploads every file with bytes, once, and lets the platform go on once,
-- at the answer to the last upload and not before, or at once where there is nothing to upload.
pub answers_started_update :
    (m : Module) (s : Updating)
    → let sent = filter has_bytes s.files in
      (answers (started m ∷ replicate (length sent) uploaded) s).1 ≡ uploading m sent
answers_started_update m s = answers_started_as m s (filter has_bytes s.files) refl

-- The files of an update: those that stay, and then the new ones with their ids as they came.
abbrev pub all_files :
    Module → ModuleConfigurationDraft → List PlatformFileIdentifier → List AllocatedModuleFile
all_files base c ids = map (with_bytes (files_of c)) (kept_files base c ++ ids)

-- An update with new files, each of which is answered with an id, calls at first the allocation of
-- each, and nothing at the answers but the last, which starts the update with the ids of the files
-- that stay and of the new ones, in the order of the answers. At the answer to the start it uploads
-- every file with bytes. It lets the platform go on once, at the answer to the last upload and not
-- before, or at the start where there is nothing to upload.
pub run_updating :
    (base : Module) (c : ModuleConfigurationDraft) (id : PlatformFileIdentifier)
    (ids : List PlatformFileIdentifier) (m : Module)
    → length (new_files base c) ≡ suc (length ids)
    → let sent = filter has_bytes (all_files base c (id ∷ ids)) in
      run base c
        (allocated id ∷ (map allocated ids ++ started m ∷ replicate (length sent) uploaded))
      ≡ map (λ file. allocate_file file.name) (new_files base c)
        ∷ (replicate (length ids) []
            ++ (start_module_updating (record {
              module_id = base.information.id;
              new_module_configuration =
                  with_files c (map (λ file. file.id) (all_files base c (id ∷ ids)));
            })
                ∷ [])
              ∷ uploading m sent)
unfolding run complete
run_updating base c id ids m e =
    let sent = filter has_bytes (all_files base c (id ∷ ids)) in
    let later = started m ∷ replicate (length sent) uploaded in
    rw (begin_files base c (omega arith)) (
      rw (answers_allocated ids id later (initial base c) (omega arith)) (
        rw (
          answers_started_update m (record (initial base c) {
            additional_files = kept_files base c ++ id ∷ ids;
            allocated_files_count = length (new_files base c);
            files = all_files base c (id ∷ ids);
          }))))
