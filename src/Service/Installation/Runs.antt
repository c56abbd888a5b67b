-- ===== src/Service/Installation/Runs.antt =====
-- What an installation asks of the platform, and which file is uploaded under which id.
use mathlib.Core.Option
use art_platform.Common.{
  ℕ, zero, suc, ◌+◌, ◌≡◌, ◌≢◌, refl, ap, none, some, List, [], ◌∷◌, ◌++◌, map, append_assoc, arith,
  length, length-append, replicate,
}
use art_platform.Extensions.Arrays.{is_empty_array-cons}
use art_platform.Model.Modules.{
  PlatformFileIdentifier, Module, ModuleFile, ModuleConfigurationDraft,
}
use art_platform.Service.ModuleService.{
  allocate_file, start_module_installation, process_module_installation, create_module_name,
  with_files, files_of,
}
use art_platform.Service.Installation.Defs.{
  Installation, Answer, allocated, started, uploaded, begin, start_installation, uploads_from,
  answer, answers, run,
}

answer_allocated_more :
    (id : PlatformFileIdentifier) (s : Installation)
    → length s.additional_files + 1 ≢ length (files_of s.configuration)
    → answer (allocated id) s ≡ (record s { additional_files = s.additional_files ++ id ∷ [] }, [])
unfolding answer
answer_allocated_more id s ne = ground (arith, length-append s.additional_files (id ∷ []))

answer_allocated_last :
    (id : PlatformFileIdentifier) (s : Installation)
    → length s.additional_files + 1 ≡ length (files_of s.configuration)
    → let s' = record s { additional_files = s.additional_files ++ id ∷ [] } in
      answer (allocated id) s ≡ (s', start_installation s' ∷ [])
unfolding answer
answer_allocated_last id s e = ground (arith, length-append s.additional_files (id ∷ []))

-- The ids are kept in the order of the answers, and only the last of them starts the installation.
pub answers_allocated :
    (ids : List PlatformFileIdentifier) (id : PlatformFileIdentifier) (later : List Answer)
    (s : Installation)
    → length s.additional_files + suc (length ids) ≡ length (files_of s.configuration)
    → let s' = record s { additional_files = s.additional_files ++ id ∷ ids } in
      (answers (allocated id ∷ (map allocated ids ++ later)) s).1
      ≡ replicate (length ids) [] ++ (start_installation s' ∷ []) ∷ (answers later s').1
unfolding answers
answers_allocated [] id later s e = rw (answer_allocated_last id s (omega arith)) refl
answers_allocated (i ∷ ids) id later s e = rw (answer_allocated_more id s (omega arith)) (
    rw
      (answers_allocated ids i later (record s { additional_files = s.additional_files ++ id ∷ [] })
        (omega (arith, length-append s.additional_files (id ∷ []))))
      (rw (append_assoc s.additional_files (id ∷ []) (i ∷ ids)) refl))

answers_uploaded :
    (n : ℕ) (m : Module) (s : Installation)
    → s.started_module ≡ some m
    → s.uploaded_files_count + suc n ≡ length (files_of s.configuration)
    → (answers (replicate (suc n) uploaded) s).1
      ≡ replicate n [] ++ (process_module_installation m ∷ []) ∷ []
unfolding answers answer
answers_uploaded zero m s h e = ground arith
answers_uploaded (suc n) m s h e = ground (
  arith,
  answers_uploaded n m (record s { uploaded_files_count = s.uploaded_files_count + 1 }) h
      (omega arith),
)

abbrev pub initial : ℕ → ModuleConfigurationDraft → Installation
initial project c = record {
  project_id = project;
  configuration = c;
  additional_files = [];
  started_module = none;
  uploaded_files_count = 0;
}

begin_files :
    (project : ℕ) (c : ModuleConfigurationDraft) (f : ModuleFile) (fs : List ModuleFile)
    → c.additional_files ≡ some (f ∷ fs)
    → begin project c ≡ (initial project c, map (λ file. allocate_file file.name) (f ∷ fs))
unfolding begin
begin_files project c f fs e = simp (e, is_empty_array-cons)

answer_started :
    (m : Module) (s : Installation) (f : ModuleFile) (fs : List ModuleFile)
    → s.configuration.additional_files ≡ some (f ∷ fs)
    → answer (started m) s ≡ (
      record s { started_module = some m; uploaded_files_count = 0 },
      uploads_from 0 s.additional_files (f ∷ fs),
    )
unfolding answer
answer_started m s f fs e = simp (e, is_empty_array-cons)

answers_started :
    (n : ℕ) (m : Module) (s : Installation) (f : ModuleFile) (fs : List ModuleFile)
    → s.configuration.additional_files ≡ some (f ∷ fs)
    → length fs ≡ n
    → (answers (started m ∷ replicate (suc n) uploaded) s).1
      ≡ uploads_from 0 s.additional_files (f ∷ fs)
        ∷ (replicate n [] ++ (process_module_installation m ∷ []) ∷ [])
unfolding answers
answers_started n m s f fs e len =
    let files : length (files_of s.configuration) ≡ suc (length fs) =
      ap (λ o. length (Option.get_or o [])) e in
    let t : Installation = record s { started_module = some m; uploaded_files_count = 0 } in
    ground (arith, answer_started m s f fs e, answers_uploaded n m t refl (omega (arith, files)))

-- An installation with files, each answered with an id, calls at first the allocation of each, and
-- nothing at the answers but the last, which starts it with the ids in the order in which they came.
-- At the answer to the start it uploads each file, and it lets the platform go on once, at the answer
-- to the last upload and not before.
pub run_installation :
    (project : ℕ) (c : ModuleConfigurationDraft) (f : ModuleFile) (fs : List ModuleFile)
    (id : PlatformFileIdentifier) (ids : List PlatformFileIdentifier) (m : Module)
    → c.additional_files ≡ some (f ∷ fs)
    → length ids ≡ length fs
    → run project c
        (allocated id ∷ (map allocated ids ++ started m ∷ replicate (suc (length fs)) uploaded))
      ≡ map (λ file. allocate_file file.name) (f ∷ fs)
        ∷ (replicate (length ids) []
            ++ (start_module_installation
                  (some (create_module_name c))
                  (record { project_id = project; configuration = with_files c (id ∷ ids) })
                ∷ [])
              ∷ uploads_from 0 (id ∷ ids) (f ∷ fs)
              ∷ (replicate (length fs) [] ++ (process_module_installation m ∷ []) ∷ []))
unfolding run start_installation
run_installation project c f fs id ids m e len =
    let files : length (files_of c) ≡ suc (length fs) = ap (λ o. length (Option.get_or o [])) e in
    let later = started m ∷ replicate (suc (length fs)) uploaded in
    let s : Installation = record (initial project c) { additional_files = id ∷ ids } in
    rw (
      begin_files project c f fs e,
      answers_allocated ids id later (initial project c) (omega (arith, files)),
      answers_started (length fs) m s f fs e refl,
    )

-- The calls of an installation up to the answer to its start.
pub run_to_start :
    (project : ℕ) (c : ModuleConfigurationDraft) (f : ModuleFile) (fs : List ModuleFile)
    (id : PlatformFileIdentifier) (ids : List PlatformFileIdentifier) (m : Module)
    → c.additional_files ≡ some (f ∷ fs)
    → length ids ≡ length fs
    → run project c (allocated id ∷ (map allocated ids ++ started m ∷ []))
      ≡ map (λ file. allocate_file file.name) (f ∷ fs)
        ∷ (replicate (length ids) []
            ++ (start_installation (record (initial project c) { additional_files = id ∷ ids })
                ∷ [])
              ∷ uploads_from 0 (id ∷ ids) (f ∷ fs)
              ∷ [])
unfolding run answers
run_to_start project c f fs id ids m e len =
    let files : length (files_of c) ≡ suc (length fs) = ap (λ o. length (Option.get_or o [])) e in
    let s : Installation = record (initial project c) { additional_files = id ∷ ids } in
    rw (
      begin_files project c f fs e,
      answers_allocated ids id (started m ∷ []) (initial project c) (omega (arith, files)),
      answer_started m s f fs e,
    )
