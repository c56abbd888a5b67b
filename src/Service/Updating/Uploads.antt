-- ===== src/Service/Updating/Uploads.antt =====
-- Which bytes an update uploads under which id.
use art_platform.Common.{
  ◌≡◌, ◌<◌, true, inl, inr, some, List, [], ◌∷◌, map, arith, All, filter, find?, find?-holds, ◌==◌,
  ==_iff, string_eq, length, Option-cases, Bool-cases,
}
use art_platform.Model.Modules.{PlatformFileIdentifier, ModuleFile}
use art_platform.Service.ModuleService.{ApiCall, upload_file, with_bytes, bytes_for}
use art_platform.Service.Updating.Defs.{has_bytes, upload_of}

-- The call uploads, under an id with its name, the bytes of a file among `files`.
abbrev pub UploadsOwn : List ModuleFile → ApiCall → Type 0
UploadsOwn files call =
    (id : PlatformFileIdentifier) × (f : ModuleFile) × (call ≡ upload_file (some id) f.bytes)
    × (find? (λ g. g.name == id.name) files ≡ some f)
    × (f.name ≡ id.name)
    × (0 < length f.bytes)

upload_of-own :
    (files : List ModuleFile) (id : PlatformFileIdentifier)
    → has_bytes (with_bytes files id) ≡ true
    → UploadsOwn files (upload_of (with_bytes files id))
unfolding bytes_for
upload_of-own files id h = elim (Option-cases (find? (λ g. g.name == id.name) files)) [
  | inl missing ↦ absurd (ground arith)
  | inr (f, found) ↦ (
    id,
    f,
    ground arith,
    found,
    (==_iff f.name id.name).0 (find?-holds (λ g. g.name == id.name) files found),
    ground arith,
  )
]

-- In whatever order the ids of the new files came, each upload of an update has the bytes of the
-- file of the configuration with the name of the id, and these are not empty.
pub uploads_own :
    (files : List ModuleFile) (ids : List PlatformFileIdentifier)
    → All (UploadsOwn files) (map upload_of (filter has_bytes (map (with_bytes files) ids)))
uploads_own files [] = tt
uploads_own files (id ∷ ids) = elim (Bool-cases (has_bytes (with_bytes files id))) [
  | inl some_bytes ↦ rw some_bytes (upload_of-own files id some_bytes, uploads_own files ids)
  | inr no_bytes ↦ rw no_bytes (uploads_own files ids)
]
