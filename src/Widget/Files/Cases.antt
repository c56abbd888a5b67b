-- ===== src/Widget/Files/Cases.antt =====
-- The branches of `onNewFile`: a file is attached, or only counted.
use art_platform.Common.{ℕ, ◌+◌, Bool, true, false, Option, Bool-cases, inl, inr, nat_beq, length}
use art_platform.Widget.Files.Defs.{File, FileError, FileLoader, attach_file, on_new_file}

pub on_new_file_cases {κ} :
    (P : FileLoader → Type κ) (error : Option FileError) (file : Option File) (w : FileLoader)
    → ((loaded : Bool) (count : ℕ)
        → P (attach_file file error (record w { loaded = loaded; loaded_files_count = count })).0)
    → ((loaded : Bool) (count : ℕ) → P (record w { loaded = loaded; loaded_files_count = count }))
    → P (on_new_file error file w).0
unfolding on_new_file
on_new_file_cases P error file w attached counted = elim (Bool-cases w.loaded) [
  | inl l ↦ rw (l, on_new_file) (attached true w.loaded_files_count)
  | inr l ↦ elim (Bool-cases (nat_beq (w.loaded_files_count + 1) (length w.initial_files))) [
    | inl last ↦ rw (l, last, on_new_file) (attached true (w.loaded_files_count + 1))
    | inr early ↦ rw (l, early, on_new_file) (counted false (w.loaded_files_count + 1))
  ]
]
