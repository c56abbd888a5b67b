-- ===== src/Widget/Files/Defs.antt =====
-- The class `ManagedFileLoader`. FilePond reports the files that are added and asks before one is
-- removed; the browser reads files and reports the end of each reading. The three properties of
-- the configuration are the values that they hold. A widget that is empty is one with no file.
use art_platform.Common.{
  ℕ, ◌+◌, Bool, true, false, not, Option, none, some, String, List, [], ◌∷◌, ◌++◌, map, filter,
  length, ltb, nat_beq, if◌then◌else◌, ◌==◌, nat_eq, string_eq, find_index?, assign,
}
use art_platform.Model.Modules.{ModuleFile}

-- A file of FilePond: which object it is, its name, its size where it is known, and whether
-- `file.file` is a `Blob`.
pub record File : Type 0 where
  pub object : ℕ
  pub filename : String
  pub file_size : Option ℕ
  pub is_blob : Bool

pub record FileError : Type 0 where
  pub main : String
  pub sub : String

pub record FileLoader : Type 0 where
  pub max_file_size : ℕ
  pub loaded : Bool
  pub loaded_files_count : ℕ
  pub initial_files : List File
  pub loaded_files : List File
  pub current_files : List ModuleFile

-- What the loader calls: the notifications of a broken, a large and an empty file, the readings
-- that it starts, and the drawing of the widget.
pub data Call : Type 0 where
  error_notified : Call
  too_large_notified empty_notified : File → Call
  reading_started : File → Call
  widget_notified : Call

abbrev pub default_file : String → File
default_file name = record { object = 0; filename = name; file_size = none; is_blob = false }

abbrev pub unread_name : String → ModuleFile
unread_name name = record { name = name; bytes = [] }

-- The constructors of the widget and of its configuration; the objects of the default files are
-- made by FilePond.
unfoldable pub file_loader : ℕ → List String → FileLoader
file_loader max_file_size names = record {
  max_file_size = max_file_size;
  loaded = nat_beq (length names) 0;
  loaded_files_count = 0;
  initial_files = map default_file names;
  loaded_files = map default_file names;
  current_files = map unread_name names;
}

-- `{name: file.filename, bytes: Buffer.alloc(0)}`
abbrev pub unread : File → ModuleFile
unread file = record { name = file.filename; bytes = [] }

-- The search by `findIndex`, and then the copy of the list in which the element that is found is
-- replaced, or to which the new one is appended.
unfoldable pub replace_or_append {ℓ} : {A : Type ℓ} → (A → Bool) → A → List A → List A
replace_or_append found a xs = elim (find_index? found xs) [
  | none ↦ xs ++ a ∷ []
  | some i ↦ assign a xs i a
]

unfoldable pub update_files : FileLoader → FileLoader × List Call
update_files w = (
  record w { current_files = map unread w.loaded_files },
  map reading_started (filter (λ file. file.is_blob) w.loaded_files),
)

-- `loadedFiles.value!.filter(currentFile => currentFile != file)`
unfoldable pub drop_object : File → FileLoader → FileLoader
drop_object file w = record w {
  loaded_files = filter (λ current. not (current.object == file.object)) w.loaded_files;
}

abbrev pub too_large : ℕ → Option ℕ → Bool
too_large max_file_size none = false
too_large max_file_size (some size) = ltb max_file_size size

abbrev pub is_zero : Option ℕ → Bool
is_zero none = false
is_zero (some size) = nat_beq size 0

unfoldable pub keep_file : File → FileLoader → FileLoader × List Call
unfolding replace_or_append update_files
keep_file file w =
    let kept =
      replace_or_append (λ current. current.filename == file.filename) file w.loaded_files in
    let updated = update_files (record w { loaded_files = kept }) in
    (updated.0, updated.1 ++ widget_notified ∷ [])

unfoldable pub attach_file : Option File → Option FileError → FileLoader → FileLoader × List Call
unfolding drop_object
attach_file none error w = (w, error_notified ∷ widget_notified ∷ [])
attach_file (some file) (some error) w = (w, error_notified ∷ widget_notified ∷ [])
attach_file (some file) none w =
    if too_large w.max_file_size file.file_size
    then (drop_object file w, too_large_notified file ∷ widget_notified ∷ [])
    else (if is_zero file.file_size
        then (drop_object file w, empty_notified file ∷ widget_notified ∷ [])
        else keep_file file w)

unfoldable pub on_new_file : Option FileError → Option File → FileLoader → FileLoader × List Call
on_new_file error file w =
    let counted = record w { loaded_files_count = w.loaded_files_count + 1 } in
    if w.loaded
    then attach_file file error w
    else (if nat_beq (w.loaded_files_count + 1) (length w.initial_files)
        then attach_file file error (record counted { loaded = true })
        else (counted, []))

-- `loadedFiles.value!.filter(currentFile => currentFile.filename != file.filename)`
unfoldable pub drop_name : String → FileLoader → FileLoader
drop_name name w = record w {
  loaded_files = filter (λ current. not (current.filename == name)) w.loaded_files;
}

unfoldable pub before_remove_file : Option File → FileLoader → FileLoader × List Call
unfolding drop_name update_files
before_remove_file none w = (w, [])
before_remove_file (some file) w =
    let updated = update_files (drop_name file.filename w) in
    (updated.0, updated.1 ++ widget_notified ∷ [])

unfoldable pub add_file : ModuleFile → FileLoader → FileLoader
unfolding replace_or_append
add_file file w =
    let files = replace_or_append (λ current. current.name == file.name) file w.current_files in
    record w { current_files = if nat_beq (length w.loaded_files) 0 then file ∷ [] else files }

-- The handler `onloadend` of the reading of a file.
unfoldable pub end_reading : File → List ℕ → FileLoader → FileLoader × List Call
unfolding drop_name add_file
end_reading file [] w =
    let dropped = drop_name file.filename w in
    (
      record dropped { current_files = map unread dropped.loaded_files },
      if nat_beq (length dropped.loaded_files) 0 then [] else widget_notified ∷ [],
    )
end_reading file (byte ∷ bytes) w =
    (add_file (record { name = file.filename; bytes = byte ∷ bytes }) w, [])

unfoldable pub clear_files : FileLoader → FileLoader
clear_files w = record w { loaded_files = []; current_files = [] }

pub data Event : Type 0 where
  file_reported : Option FileError → Option File → Event
  removal_asked : Option File → Event
  reading_ended : File → List ℕ → Event
  files_cleared : Event

unfoldable pub step : Event → FileLoader → FileLoader × List Call
unfolding on_new_file before_remove_file end_reading clear_files
step (file_reported error file) w = on_new_file error file w
step (removal_asked file) w = before_remove_file file w
step (reading_ended file bytes) w = end_reading file bytes w
step files_cleared w = (clear_files w, [])

unfoldable pub run : List Event → FileLoader → FileLoader × List Call
run [] w = (w, [])
run (event ∷ events) w =
    let first = step event w in let rest = run events first.0 in (rest.0, first.1 ++ rest.1)
