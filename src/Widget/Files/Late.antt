-- ===== src/Widget/Files/Late.antt =====
-- A reading that ends after its file was taken out.
use art_platform.Common.{
  ℕ, ◌≡◌, refl, ap, ◌∙◌, false, not, some, List, [], ◌∷◌, ◌++◌, map, filter, arith, nat_eq,
  string_eq, ◌==◌, ==_iff, length, nat_beq, if◌then◌else◌, Bool-cases, inl, inr,
}
use art_platform.Extensions.Maps.{contains}
use art_platform.Model.Modules.{ModuleFile}
use art_platform.Widget.Files.Defs.{
  File, FileLoader, unread, replace_or_append, drop_name, before_remove_file, update_files,
  add_file, end_reading, removal_asked, reading_ended, step, run,
}
use art_platform.Widget.Files.Replacing.{replace_or_append_lem}

-- The files with other names.
abbrev pub others : File → List File → List File
others file = filter (λ current. not (current.filename == file.filename))

abbrev pub contents_of : File → List ℕ → ModuleFile
contents_of file bytes = record { name = file.filename; bytes = bytes }

replace_or_append-others :
    (file : File) (bytes : List ℕ) (files : List File)
    → replace_or_append
        (λ current. current.name == file.filename)
        (contents_of file bytes)
        (map unread (others file files))
      ≡ map unread (others file files) ++ contents_of file bytes ∷ []
replace_or_append-others file bytes [] = unfold replace_or_append in refl
replace_or_append-others file bytes (f ∷ files) = elim (Bool-cases (f.filename == file.filename)) [
  | inl same ↦ rw same (replace_or_append-others file bytes files)
  | inr other ↦ rw other (
      replace_or_append_lem (λ current. current.name == file.filename) (contents_of file bytes)
        (unread f) (map unread (others file files))
      ∙ rw other (ap (◌∷◌ (unread f)) (replace_or_append-others file bytes files)))
]

contains-others :
    (file : File) (files : List File)
    → contains file.filename (map (λ f. f.filename) (others file files)) ≡ false
unfolding contains
contains-others file [] = refl
contains-others file (f ∷ files) =
    ground (arith, contains-others file files, ==_iff f.filename file.filename)

keep_contents :
    (kept : List File) (contents : ModuleFile) (files : List ModuleFile)
    → files ≡ map unread kept ++ contents ∷ []
    → (if nat_beq (length kept) 0 then contents ∷ [] else files) ≡ map unread kept ++ contents ∷ []
keep_contents [] contents files h = refl
keep_contents (f ∷ kept) contents files h = ground (arith, h)

-- A file is removed while it is read, and then its reading ends with bytes. The contents are then
-- those of the other loaded files, which wait for their readings, and the bytes of the removed file
-- all the same, under its name, while no loaded file has it.
pub end_reading-late :
    (file : File) (byte : ℕ) (bytes : List ℕ) (w : FileLoader)
    → let late = (run (removal_asked (some file) ∷ reading_ended file (byte ∷ bytes) ∷ []) w).0 in
      (late.current_files
        ≡ map unread (others file w.loaded_files) ++ contents_of file (byte ∷ bytes) ∷ [])
      × (contains file.filename (map (λ f. f.filename) late.loaded_files) ≡ false)
unfolding run step before_remove_file update_files drop_name end_reading add_file
end_reading-late file byte bytes w = (
  keep_contents (others file w.loaded_files) (contents_of file (byte ∷ bytes)) _
      (replace_or_append-others file (byte ∷ bytes) w.loaded_files),
  contains-others file w.loaded_files,
)
