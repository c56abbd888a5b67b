-- ===== src/Widget/Files/Bounds.antt =====
-- The sizes of the files that are loaded.
use art_platform.Common.{
  ℕ, ◌<◌, ◌≤◌, ◌≡◌, refl, false, Option, none, some, String, List, [], ◌∷◌, map, not, All, arith,
  ◌==◌, nat_eq, string_eq, Bool-cases, inl, inr,
}
use art_platform.Widget.Files.Defs.{
  File, FileError, FileLoader, default_file, file_loader, too_large, is_zero, drop_object,
  drop_name, keep_file, attach_file, clear_files, on_new_file, before_remove_file, end_reading,
  add_file, update_files, Event, file_reported, removal_asked, reading_ended, files_cleared, step,
  run,
}
use art_platform.Widget.Files.Cases.{on_new_file_cases}
use art_platform.Widget.Files.Replacing.{replace_or_append-All, filter-All}

-- A file whose size is known is not empty and not above the maximum.
abbrev SizeInBounds : ℕ → Option ℕ → Type 0
SizeInBounds max none = Unit
SizeInBounds max (some size) = (0 < size) × (size ≤ max)

abbrev pub InBounds : ℕ → File → Type 0
InBounds max file = SizeInBounds max file.file_size

too_large-SizeInBounds :
    (max : ℕ) (size : Option ℕ)
    → too_large max size ≡ false
    → is_zero size ≡ false
    → SizeInBounds max size
too_large-SizeInBounds max none l z = tt
too_large-SizeInBounds max (some size) l z = ground arith

-- All the files of a loader are in bounds, and the bound is the given one.
abbrev Bounded : ℕ → FileLoader → Type 0
Bounded max w = (w.max_file_size ≡ max) × All (InBounds max) w.loaded_files

attach_file-Bounded :
    (max : ℕ) (file : Option File) (error : Option FileError) (w : FileLoader)
    → Bounded max w
    → Bounded max (attach_file file error w).0
unfolding attach_file keep_file drop_object
attach_file-Bounded max none error w b = b
attach_file-Bounded max (some file) (some error) w b = b
attach_file-Bounded max (some file) none w (m, b) =
    let dropped =
      filter-All (InBounds max) (λ current. not (current.object == file.object)) w.loaded_files b in
    elim (Bool-cases (too_large w.max_file_size file.file_size)) [
      | inl large ↦ rw (large, attach_file) (m, dropped)
      | inr fits ↦ elim (Bool-cases (is_zero file.file_size)) [
        | inl zero ↦ rw (fits, zero, attach_file) (m, dropped)
        | inr filled ↦
            rw (fits, filled, attach_file)
              (
                m,
                replace_or_append-All (InBounds max) (λ current. current.filename == file.filename)
                    file w.loaded_files
                    (too_large-SizeInBounds max file.file_size (rw m at fits) filled) b,
              )
      ]
    ]

on_new_file-Bounded :
    (max : ℕ) (error : Option FileError) (file : Option File) (w : FileLoader)
    → Bounded max w
    → Bounded max (on_new_file error file w).0
on_new_file-Bounded max error file w b =
    on_new_file_cases (Bounded max) error file w
      (λ loaded count.
        attach_file-Bounded max file error
          (record w { loaded = loaded; loaded_files_count = count }) b)
      (λ loaded count. b)

step-Bounded :
    (max : ℕ) (event : Event) (w : FileLoader) → Bounded max w → Bounded max (step event w).0
unfolding step before_remove_file end_reading clear_files drop_name add_file update_files
step-Bounded max (file_reported error file) w b = on_new_file-Bounded max error file w b
step-Bounded max (removal_asked none) w b = b
step-Bounded max (removal_asked (some file)) w (m, b) = (
  m,
  filter-All (InBounds max) (λ current. not (current.filename == file.filename)) w.loaded_files b,
)
step-Bounded max (reading_ended file []) w (m, b) = (
  m,
  filter-All (InBounds max) (λ current. not (current.filename == file.filename)) w.loaded_files b,
)
step-Bounded max (reading_ended file (byte ∷ bytes)) w b = b
step-Bounded max files_cleared w (m, b) = (m, tt)

run-Bounded :
    (max : ℕ) (events : List Event) (w : FileLoader) → Bounded max w → Bounded max (run events w).0
unfolding run
run-Bounded max [] w b = b
run-Bounded max (event ∷ events) w b =
    run-Bounded max events (step event w).0 (step-Bounded max event w b)

default_file-All : (max : ℕ) (names : List String) → All (InBounds max) (map default_file names)
default_file-All max [] = tt
default_file-All max (name ∷ names) = (tt, default_file-All max names)

-- Whatever is reported, removed, read and cleared, and in whatever order, every file that a loader
-- has loaded and whose size is known is not empty and is at most as large as the maximum.
pub run-InBounds :
    (max : ℕ) (names : List String) (events : List Event)
    → All (InBounds max) (run events (file_loader max names)).0.loaded_files
unfolding file_loader
run-InBounds max names events =
    (run-Bounded max events (file_loader max names) (refl, default_file-All max names)).1
