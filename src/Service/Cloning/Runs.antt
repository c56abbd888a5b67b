-- ===== src/Service/Cloning/Runs.antt =====
-- What a clone asks of the platform.
use art_platform.Common.{
  ℕ, zero, suc, ◌+◌, ◌≡◌, refl, ap, some, List, [], ◌∷◌, ◌++◌, map, arith, length, filter,
  replicate,
}
use art_platform.Model.Modules.{PlatformFileIdentifier, Module}
use art_platform.Service.ModuleService.{ApiCall, process_module_installation, AllocatedModuleFile}
use art_platform.Service.Cloning.Defs.{Cloning, started, sent, has_buffer, send, answer, answers}
use art_platform.Service.Cloning.Sent.{request_for, send_lem}

answers_sent :
    (n : ℕ) (m : Module) (s : Cloning)
    → s.started_module ≡ some m
    → s.uploaded_files_count + suc n ≡ length (filter has_buffer s.files)
    → (answers (replicate (suc n) sent) s).1
      ≡ replicate n [] ++ (process_module_installation m ∷ []) ∷ []
unfolding answers answer
answers_sent zero m s h e = ground arith
answers_sent (suc n) m s h e = ground (
  arith,
  answers_sent n m (record s { uploaded_files_count = s.uploaded_files_count + 1 }) h (omega arith),
)

answer_started_none :
    (m : Module) (s : Cloning)
    → filter has_buffer s.files ≡ []
    → (answer (started m) s).1 ≡ process_module_installation m ∷ []
unfolding answer
answer_started_none m s e = ground arith

answer_started_some :
    (m : Module) (s : Cloning) (f : AllocatedModuleFile) (fs : List AllocatedModuleFile)
    → filter has_buffer s.files ≡ f ∷ fs
    → answer (started m) s ≡ (
      record s { started_module = some m; uploaded_files_count = 0 },
      (send s.base_module.information.additional_files (filter has_buffer s.files)).0,
    )
unfolding answer
answer_started_some m s f fs e = ground arith

-- The calls at the start and at each answer after it: the platform goes on at the last answer, or at
-- the start where there is nothing to send.
abbrev pub sending :
    List PlatformFileIdentifier → Module → List AllocatedModuleFile → List (List ApiCall)
sending current m [] = (process_module_installation m ∷ []) ∷ []
sending current m (f ∷ fs) =
    map (request_for current) (f ∷ fs)
    ∷ (replicate (length fs) [] ++ (process_module_installation m ∷ []) ∷ [])

answers_started_as :
    (m : Module) (s : Cloning) (current : List PlatformFileIdentifier)
    (files : List AllocatedModuleFile)
    → s.base_module.information.additional_files ≡ some current
    → filter has_buffer s.files ≡ files
    → (answers (started m ∷ replicate (length files) sent) s).1 ≡ sending current m files
unfolding answers
answers_started_as m s current [] b e = rw (answer_started_none m s e)
answers_started_as m s current (f ∷ fs) b e =
    let t : Cloning = record s { started_module = some m; uploaded_files_count = 0 } in
    rw (answer_started_some m s f fs e) (
      rw (answers_sent (length fs) m t refl (omega (arith, ap length e)))
        (rw (e, b, send_lem current (f ∷ fs))))

-- If the base module has a list of files, a clone asks at the answer to the start for each file with
-- a buffer, once, either an upload or a copy, in the order of the files. It lets the platform go on
-- once, at the last of as many answers and not before, or at the start where there is no such file.
pub answers_started_clone :
    (m : Module) (s : Cloning) (current : List PlatformFileIdentifier)
    → s.base_module.information.additional_files ≡ some current
    → let files = filter has_buffer s.files in
      (answers (started m ∷ replicate (length files) sent) s).1 ≡ sending current m files
answers_started_clone m s current b =
    answers_started_as m s current (filter has_buffer s.files) b refl
