-- ===== src/Loader/Applications.antt =====
-- loader/ApplicationsLoader.ts: as the loader of resources, with the one type `filebeat`.
use art_platform.Common.{
  ℕ, ◌+◌, ◌≡◌, refl, Bool, true, false, Option, none, some, List, [], ◌∷◌, ◌++◌, map, if◌then◌else◌,
  nat_beq, nat_eq, length, filter, any, find?, ◌==◌, ==_iff, ==_refl, Bool-cases, inl, inr, All,
  string_eq,
}
use art_platform.Model.Resources.{
  ApplicationType, ApplicationIdentifier, Applications, FilebeatApplication,
}

-- `ALL_APPLICATIONS` of constants/ApplicationConstants.ts
abbrev pub all_applications : List ApplicationType
all_applications = ApplicationType.filebeat_application ∷ []

pub record ApplicationsLoader : Type 0 where
  pub loaded : Bool
  pub applications : Applications

-- A store shares the lists with its loader.
pub record ApplicationsStore : Type 0 where
  pub ids : List ApplicationIdentifier

-- What a `case` of `ids` adds.
abbrev ids_of_type : ApplicationType → Applications → List ApplicationIdentifier
ids_of_type ApplicationType.filebeat_application r =
    map (λ x. record { id = x.id; name = x.name; type = ApplicationType.filebeat_application })
      r.filebeat
ids_of_type (ApplicationType.other t) r = []

unfoldable ids_from :
    List ApplicationIdentifier → List ApplicationType → Applications → List ApplicationIdentifier
ids_from ids [] r = ids
ids_from ids (t ∷ types) r = ids_from (ids ++ ids_of_type t r) types r

unfoldable pub ids : List ApplicationType → Applications → List ApplicationIdentifier
unfolding ids_from
ids types r = ids_from [] types r

-- `load`, up to the call of the API, with the count of the load.
unfoldable pub load : ApplicationsLoader → ApplicationsLoader × ℕ
load l = (record l { loaded = false; applications = record { filebeat = [] } }, 0)

-- `store`; `none` is the error.
unfoldable pub store : ApplicationsLoader → Option ApplicationsStore
unfolding ids
store l = if l.loaded then some (record { ids = ids all_applications l.applications }) else none

-- The callback: the loader, the count, and the store that `completed` is called with.
unfoldable pub receive :
    List FilebeatApplication
    → ApplicationsLoader
    → ℕ
    → ApplicationsLoader × ℕ × Option ApplicationsStore
unfolding store
receive answer l count =
    let kept = record l { applications = record { filebeat = answer } } in
    if nat_beq (count + 1) (length all_applications)
    then (let done = record kept { loaded = true } in (done, count + 1, store done))
    else (kept, count + 1, none)

abbrev type_beq : ApplicationType → ApplicationType → Bool
type_beq ApplicationType.filebeat_application ApplicationType.filebeat_application = true
type_beq (ApplicationType.other s) (ApplicationType.other t) = s == t
type_beq _ _ = false

-- `idsOf` of a store
unfoldable pub ids_of : List ApplicationType → ApplicationsStore → List ApplicationIdentifier
ids_of types s = filter (λ id. any (λ t. type_beq t id.type) types) s.ids

-- `applicationsOf` of a store that shares `r`
unfoldable pub applications_of : ApplicationType → Applications → List FilebeatApplication
applications_of ApplicationType.filebeat_application r = r.filebeat
applications_of (ApplicationType.other t) r = []

unfoldable pub filebeat_of : ApplicationIdentifier → Applications → Option FilebeatApplication
unfolding applications_of
filebeat_of id r =
    find? (λ filebeat. filebeat.id == id.id)
      (applications_of ApplicationType.filebeat_application r)

-- There is an application, and it has the id.
abbrev pub HasId : ℕ → Option FilebeatApplication → Type 0
HasId id none = ⊥
HasId id (some f) = f.id ≡ id

find?-HasId_later :
    (f : FilebeatApplication) (fs : List FilebeatApplication) (id : ℕ)
    → HasId id (find? (λ x. x.id == id) fs)
    → HasId id (find? (λ x. x.id == id) (f ∷ fs))
find?-HasId_later f fs id h = elim (Bool-cases (f.id == id)) [
  | inl same ↦ rw same ((==_iff f.id id).0 same)
  | inr different ↦ rw different h
]

abbrev identifier : FilebeatApplication → ApplicationIdentifier
identifier x = record { id = x.id; name = x.name; type = ApplicationType.filebeat_application }

All-later :
    (f : FilebeatApplication) (fs : List FilebeatApplication) (xs : List ApplicationIdentifier)
    → All (λ i. HasId i.id (find? (λ x. x.id == i.id) fs)) xs
    → All (λ i. HasId i.id (find? (λ x. x.id == i.id) (f ∷ fs))) xs
All-later f fs [] h = tt
All-later f fs (i ∷ xs) h = (find?-HasId_later f fs i.id h.0, All-later f fs xs h.1)

All-found :
    (fs : List FilebeatApplication)
    → All (λ i. HasId i.id (find? (λ x. x.id == i.id) fs)) (map identifier fs)
All-found [] = tt
All-found (f ∷ fs) = (rw (==_refl f.id), All-later f fs (map identifier fs) (All-found fs))

-- A load and its answer complete once, with a store that lists the answer; and the store finds,
-- for every identifier that it lists, an application with its id.
pub receive_lem :
    (answer : List FilebeatApplication) (l : ApplicationsLoader)
    → let begun = load l in
      let done = receive answer begun.0 begun.1 in
      (done.0.loaded ≡ true)
      × (done.2 ≡ store done.0)
      × All
          (λ id. HasId id.id (filebeat_of id done.0.applications))
          (ids all_applications done.0.applications)
unfolding load receive ids filebeat_of
receive_lem answer l = (refl, refl, All-found answer)
