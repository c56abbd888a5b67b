-- ===== src/Service/Installation/Uploads.antt =====
-- Under which id each file of an installation is uploaded.
use art_platform.Common.{
  ℕ, zero, suc, ◌+◌, ◌≡◌, refl, ap, ◌∙◌, some, List, [], ◌∷◌, map, arith, get_elem?, ◌++◌, length,
  replicate,
}
use art_platform.Model.Modules.{
  PlatformFileIdentifier, Module, ModuleFile, ModuleConfigurationDraft,
}
use art_platform.Service.ModuleService.{ApiCall, upload_file, allocate_file}
use art_platform.Service.Installation.Defs.{allocated, started, uploads_from, run}
use art_platform.Service.Installation.Runs.{run_to_start}

get_elem?-uploads_from :
    (n i : ℕ) (ids : List PlatformFileIdentifier) (files : List ModuleFile) (f : ModuleFile)
    → get_elem? files i ≡ some f
    → get_elem? (uploads_from n ids files) i ≡ some (upload_file (get_elem? ids (n + i)) f.bytes)
unfolding uploads_from
get_elem?-uploads_from n i ids [] f e = absurd (cc)
get_elem?-uploads_from n zero ids (g ∷ gs) f e = ground arith
get_elem?-uploads_from n (suc i) ids (g ∷ gs) f e =
    get_elem?-uploads_from (suc n) i ids gs f e
    ∙ ap (λ k. some (upload_file (get_elem? ids k) f.bytes)) {x = suc n + i} (omega arith)

-- The file at an index is uploaded under the id that was answered at this index, whichever file
-- that id was allocated for.
pub get_elem?-uploads :
    (i : ℕ) (ids : List PlatformFileIdentifier) (files : List ModuleFile) (f : ModuleFile)
    → get_elem? files i ≡ some f
    → get_elem? (uploads_from 0 ids files) i ≡ some (upload_file (get_elem? ids i) f.bytes)
get_elem?-uploads i ids files f e =
    get_elem?-uploads_from 0 i ids files f e
    ∙ ap (λ k. some (upload_file (get_elem? ids k) f.bytes)) {x = 0 + i} (omega arith)

get_elem?-map_names :
    (i : ℕ) (files : List ModuleFile) (f : ModuleFile)
    → get_elem? files i ≡ some f
    → get_elem? (map (λ (file : ModuleFile). allocate_file file.name) files) i
      ≡ some (allocate_file f.name)
get_elem?-map_names i [] f e = absurd (cc)
get_elem?-map_names zero (g ∷ gs) f e = ground arith
get_elem?-map_names (suc i) (g ∷ gs) f e = get_elem?-map_names i gs f e

get_elem?-replicate :
    (n : ℕ) (a b : List ApiCall) → get_elem? (replicate n [] ++ a ∷ b ∷ []) (suc n) ≡ some b
get_elem?-replicate zero a b = refl
get_elem?-replicate (suc n) a b = get_elem?-replicate n a b

-- In an installation with files, each answered with an id, in whatever order the answers come: the
-- allocation of the file at an index is the call at this index of those at first, while the file is
-- uploaded, at this index of the calls at the start, under the id that was answered at this index,
-- whichever file that id was allocated for.
pub get_elem?-run :
    (i project : ℕ) (c : ModuleConfigurationDraft) (f g : ModuleFile) (fs : List ModuleFile)
    (id at : PlatformFileIdentifier) (ids : List PlatformFileIdentifier) (m : Module)
    → c.additional_files ≡ some (f ∷ fs)
    → length ids ≡ length fs
    → get_elem? (f ∷ fs) i ≡ some g
    → get_elem? (id ∷ ids) i ≡ some at
    → let calls = run project c (allocated id ∷ (map allocated ids ++ started m ∷ [])) in
      (asked uploads : List ApiCall) × (get_elem? calls 0 ≡ some asked)
      × (get_elem? asked i ≡ some (allocate_file g.name))
      × (get_elem? calls (suc (suc (length ids))) ≡ some uploads)
      × (get_elem? uploads i ≡ some (upload_file (some at) g.bytes))
get_elem?-run i project c f g fs id at ids m e len file_at id_at =
    let calls = run_to_start project c f fs id ids m e len in
    (
      map (λ file. allocate_file file.name) (f ∷ fs),
      uploads_from 0 (id ∷ ids) (f ∷ fs),
      ap (λ xs. get_elem? xs 0) calls,
      get_elem?-map_names i (f ∷ fs) g file_at,
      ap (λ xs. get_elem? xs (suc (suc (length ids)))) calls ∙ get_elem?-replicate (length ids) _ _,
      get_elem?-uploads i (id ∷ ids) (f ∷ fs) g file_at
          ∙ ap (λ k. some (upload_file k g.bytes)) id_at,
    )

names_at :
    (i : ℕ) (ids : List PlatformFileIdentifier) (files : List ModuleFile) (f : ModuleFile)
    → map (λ (id : PlatformFileIdentifier). id.name) ids ≡ map (λ (g : ModuleFile). g.name) files
    → get_elem? files i ≡ some f
    → (id : PlatformFileIdentifier) × (get_elem? ids i ≡ some id) × (id.name ≡ f.name)
names_at i [] [] f names e = absurd (cc)
names_at i [] (g ∷ gs) f names e = absurd (cc)
names_at i (id ∷ ids) [] f names e = absurd (cc)
names_at zero (id ∷ ids) (g ∷ gs) f names e = (id, refl, ground arith)
names_at (suc i) (id ∷ ids) (g ∷ gs) f names e = names_at i ids gs f (ground arith) e

-- If the answers come in the order of the requests, each file is uploaded under an id that was
-- allocated for its name.
pub uploads_in_order :
    (i : ℕ) (ids : List PlatformFileIdentifier) (files : List ModuleFile) (f : ModuleFile)
    → map (λ (id : PlatformFileIdentifier). id.name) ids ≡ map (λ (g : ModuleFile). g.name) files
    → get_elem? files i ≡ some f
    → (id : PlatformFileIdentifier) × (get_elem? (uploads_from 0 ids files) i
        ≡ some (upload_file (some id) f.bytes))
      × (id.name ≡ f.name)
uploads_in_order i ids files f names e =
    let (id, at_i, own) = names_at i ids files f names e in
    (id, rw (get_elem?-uploads i ids files f e, at_i), own)
