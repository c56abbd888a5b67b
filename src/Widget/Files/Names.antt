-- ===== src/Widget/Files/Names.antt =====
-- The names of the files that are loaded, and of those with contents.
use mathlib.Core.Path.{subst}
use art_platform.Common.{
  ℕ, ◌≡◌, refl, sym, ap, ◌∙◌, Bool, true, false, Option, none, some, String, List, [], ◌∷◌, map,
  filter, not, any, arith, ◌==◌, nat_eq, string_eq, Bool-cases, inl, inr, length, nat_beq,
}
use art_platform.Extensions.Maps.{add, contains, Unique, append-Unique}
use art_platform.Model.Modules.{ModuleFile}
use art_platform.Widget.Files.Defs.{
  File, FileError, FileLoader, default_file, file_loader, unread, unread_name, too_large, is_zero,
  drop_object, drop_name, replace_or_append, keep_file, attach_file, on_new_file,
  before_remove_file, end_reading, add_file, update_files, Event, file_reported, removal_asked,
  reading_ended, files_cleared, step, run,
}
use art_platform.Widget.Files.Cases.{on_new_file_cases}
use art_platform.Widget.Files.Replacing.{map-replace_or_append}

abbrev pub filenames : FileLoader → List String
filenames w = map (λ file. file.filename) w.loaded_files

abbrev pub names : FileLoader → List String
names w = map (λ file. file.name) w.current_files

-- The two lists hold files of the same names, in the same order, each once.
pub record IsInSync (w : FileLoader) : Type 0 where
  pub same_names : names w ≡ filenames w
  pub unique : Unique (filenames w)

map-unread :
    (files : List File)
    → map (λ file. file.name) (map unread files) ≡ map (λ file. file.filename) files
map-unread [] = refl
map-unread (file ∷ files) = ap (◌∷◌ file.filename) (map-unread files)

filter_none :
    {A : Type 0} (p : A → Bool) (xs : List A) → any p xs ≡ false → filter (λ x. not (p x)) xs ≡ xs
filter_none p [] h = refl
filter_none p (x ∷ xs) h = ground (arith, filter_none p xs)

contains-map-filter :
    (n : String) (q : File → Bool) (files : List File)
    → contains n (map (λ file. file.filename) files) ≡ false
    → contains n (map (λ file. file.filename) (filter q files)) ≡ false
unfolding contains
contains-map-filter n q [] h = refl
contains-map-filter n q (file ∷ files) h = ground (arith, contains-map-filter n q files)

filter-Unique :
    (q : File → Bool) (files : List File)
    → Unique (map (λ file. file.filename) files)
    → Unique (map (λ file. file.filename) (filter q files))
filter-Unique q [] u = tt
filter-Unique q (file ∷ files) u =
    ground (arith, contains-map-filter file.filename q files u.0, filter-Unique q files u.1)

add-Unique : (n : String) (ns : List String) → Unique ns → Unique (add n ns)
unfolding add
add-Unique n ns u = ground (arith, append-Unique n ns)

add_contained : (n : String) (ns : List String) → contains n ns ≡ true → add n ns ≡ ns
unfolding add
add_contained n ns h = ground arith

update_files-IsInSync : (w : FileLoader) → Unique (filenames w) → IsInSync (update_files w).0
unfolding update_files
update_files-IsInSync w u = record { same_names = map-unread w.loaded_files; unique = u }

keep_file-IsInSync : (file : File) (w : FileLoader) → IsInSync w → IsInSync (keep_file file w).0
unfolding keep_file
keep_file-IsInSync file w s =
    let kept = replace_or_append (λ f. f.filename == file.filename) file w.loaded_files in
    update_files-IsInSync (record w { loaded_files = kept })
      (subst Unique (sym (map-replace_or_append (λ f. f.filename) file w.loaded_files))
        (add-Unique file.filename (filenames w) s.unique))

-- A file that is not loaded is not taken out.
drop_object_none :
    (file : File) (w : FileLoader)
    → any (λ current. current.object == file.object) w.loaded_files ≡ false
    → drop_object file w ≡ w
unfolding drop_object
drop_object_none file w h = λ i. record w {
  loaded_files = filter_none (λ current. current.object == file.object) w.loaded_files h i;
}

-- The file of a report is not loaded already; a reading ends while a file of its name is loaded.
abbrev NewFile : Option File → FileLoader → Type 0
NewFile none w = Unit
NewFile (some file) w = any (λ current. current.object == file.object) w.loaded_files ≡ false

attach_file-IsInSync :
    (file : Option File) (error : Option FileError) (w : FileLoader)
    → IsInSync w
    → NewFile file w
    → IsInSync (attach_file file error w).0
unfolding attach_file
attach_file-IsInSync none error w s h = s
attach_file-IsInSync (some file) (some error) w s h = s
attach_file-IsInSync (some file) none w s h =
    let dropped : IsInSync (drop_object file w) = rw (drop_object_none file w h) s in
    elim (Bool-cases (too_large w.max_file_size file.file_size)) [
      | inl large ↦ rw (large, attach_file) dropped
      | inr fits ↦ elim (Bool-cases (is_zero file.file_size)) [
        | inl zero ↦ rw (fits, zero, attach_file) dropped
        | inr filled ↦ rw (fits, filled, attach_file) (keep_file-IsInSync file w s)
      ]
    ]

length_of_contains :
    (n : String) (files : List File)
    → contains n (map (λ file. file.filename) files) ≡ true
    → nat_beq (length files) 0 ≡ false
unfolding contains
length_of_contains n [] h = absurd (cc)
length_of_contains n (file ∷ files) h = ground arith

-- A loader with loaded files puts contents among the others under their name.
pub names-add_file :
    (file : ModuleFile) (w : FileLoader)
    → nat_beq (length w.loaded_files) 0 ≡ false
    → names (add_file file w) ≡ add file.name (names w)
unfolding add_file
names-add_file file w h =
    rw (h, add_file) (map-replace_or_append (λ f. f.name) file w.current_files)

end_reading-IsInSync :
    (file : File) (bytes : List ℕ) (w : FileLoader)
    → IsInSync w
    → contains file.filename (filenames w) ≡ true
    → IsInSync (end_reading file bytes w).0
unfolding end_reading drop_name
end_reading-IsInSync file [] w s h = record {
  same_names = map-unread (drop_name file.filename w).loaded_files;
  unique =
      filter-Unique (λ current. not (current.filename == file.filename)) w.loaded_files s.unique;
}
end_reading-IsInSync file (byte ∷ bytes) w s h =
    let contents : ModuleFile = record { name = file.filename; bytes = byte ∷ bytes } in
    record {
      same_names =
          names-add_file contents w (length_of_contains file.filename w.loaded_files h)
          ∙ ap (add file.filename) s.same_names
          ∙ add_contained file.filename (filenames w) h;
      unique = s.unique;
    }

-- The order of events that keeps the two lists together.
abbrev pub Timely : List Event → FileLoader → Type 0
Timely [] w = Unit
Timely (file_reported error file ∷ events) w =
    NewFile file w × Timely events (step (file_reported error file) w).0
Timely (removal_asked file ∷ events) w = Timely events (step (removal_asked file) w).0
Timely (reading_ended file bytes ∷ events) w =
    (contains file.filename (filenames w) ≡ true)
    × Timely events (step (reading_ended file bytes) w).0
Timely (files_cleared ∷ events) w = Timely events (step files_cleared w).0

before_remove_file-IsInSync :
    (file : Option File) (w : FileLoader) → IsInSync w → IsInSync (before_remove_file file w).0
unfolding before_remove_file
before_remove_file-IsInSync none w s = s
before_remove_file-IsInSync (some file) w s =
    update_files-IsInSync (drop_name file.filename w)
      (filter-Unique (λ current. not (current.filename == file.filename)) w.loaded_files s.unique)

counted-IsInSync :
    (loaded : Bool) (count : ℕ) (w : FileLoader)
    → IsInSync w
    → IsInSync (record w { loaded = loaded; loaded_files_count = count })
counted-IsInSync loaded count w s = record { same_names = s.same_names; unique = s.unique }

counted-NewFile :
    (loaded : Bool) (count : ℕ) (file : Option File) (w : FileLoader)
    → NewFile file w
    → NewFile file (record w { loaded = loaded; loaded_files_count = count })
counted-NewFile loaded count none w new = tt
counted-NewFile loaded count (some file) w new = new

on_new_file-IsInSync :
    (error : Option FileError) (file : Option File) (w : FileLoader)
    → IsInSync w
    → NewFile file w
    → IsInSync (on_new_file error file w).0
on_new_file-IsInSync error file w s new =
    let with_count =
      λ (loaded : Bool) (count : ℕ). record w { loaded = loaded; loaded_files_count = count } in
    on_new_file_cases IsInSync error file w
      (λ loaded count.
        attach_file-IsInSync file error (with_count loaded count)
          (counted-IsInSync loaded count w s) (counted-NewFile loaded count file w new))
      (λ loaded count. counted-IsInSync loaded count w s)

run-IsInSync :
    (events : List Event) (w : FileLoader)
    → IsInSync w
    → Timely events w
    → IsInSync (run events w).0
unfolding run step
run-IsInSync [] w s t = s
run-IsInSync (file_reported error file ∷ events) w s (new, t) =
    run-IsInSync events (step (file_reported error file) w).0
      (on_new_file-IsInSync error file w s new) t
run-IsInSync (removal_asked file ∷ events) w s t =
    run-IsInSync events (step (removal_asked file) w).0 (before_remove_file-IsInSync file w s) t
run-IsInSync (reading_ended file bytes ∷ events) w s (there, t) =
    run-IsInSync events (step (reading_ended file bytes) w).0
      (end_reading-IsInSync file bytes w s there) t
run-IsInSync (files_cleared ∷ events) w s t =
    run-IsInSync events (step files_cleared w).0 (record { same_names = refl; unique = tt }) t

map-default :
    (ns : List String)
    → (map (λ file. file.filename) (map default_file ns) ≡ ns)
      × (map (λ file. file.name) (map unread_name ns) ≡ ns)
map-default [] = (refl, refl)
map-default (n ∷ ns) = let (a, b) = map-default ns in (ap (◌∷◌ n) a, ap (◌∷◌ n) b)

-- As long as every file that is reported is a new one, and every reading ends while a file of its
-- name is loaded, the contents have the names of the loaded files, in their order, each once, for
-- a loader that was made from distinct names.
pub run-file_loader :
    (max : ℕ) (default_names : List String) (events : List Event)
    → Unique default_names
    → Timely events (file_loader max default_names)
    → let w = (run events (file_loader max default_names)).0 in
      (map (λ file. file.name) w.current_files ≡ map (λ file. file.filename) w.loaded_files)
      × Unique (map (λ file. file.filename) w.loaded_files)
unfolding file_loader
run-file_loader max default_names events u t =
    let start : IsInSync (file_loader max default_names) = record {
      same_names = (map-default default_names).1 ∙ sym ((map-default default_names).0);
      unique = subst Unique (sym ((map-default default_names).0)) u;
    } in
    let s = run-IsInSync events (file_loader max default_names) start t in (s.same_names, s.unique)
