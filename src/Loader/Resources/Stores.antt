-- ===== src/Loader/Resources/Stores.antt =====
-- What a store answers: the identifiers of one type, and the lists that it shares with its loader.
use art_platform.Common.{
  filter-append, ◌≡◌, refl, ap, ◌∙◌, Bool, true, false, some, List, [], ◌∷◌, ◌++◌, map, arith,
  filter, any, if◌then◌else◌, Bool-cases, inl, inr, sym, ◌||◌, append-nil, append_assoc,
}
use art_platform.Model.Resources.{ResourceType, ResourceIdentifier, Resources, all_resources}
use art_platform.Loader.Resources.Defs.{
  ResourcesLoader, ResourcesStore, ids, ids_from, ids_of_type, store, ids_of, type_beq,
}

filter-map :
    {A : Type 0} (p : ResourceIdentifier → Bool) (f : A → ResourceIdentifier) (b : Bool)
    (xs : List A)
    → ((x : A) → p (f x) ≡ b)
    → filter p (map f xs) ≡ (if b then map f xs else [])
filter-map p f true [] h = refl
filter-map p f false [] h = refl
filter-map p f true (x ∷ xs) h = rw (h x) (ap (◌∷◌ (f x)) (filter-map p f true xs h))
filter-map p f false (x ∷ xs) h = rw (h x) (filter-map p f false xs h)

-- The identifiers of another type do not pass the test, those of the type do.
filter-ids_of_type :
    (t u : ResourceType) (r : Resources)
    → filter (λ id. any (λ x. type_beq x id.type) (t ∷ [])) (ids_of_type u r)
      ≡ (if type_beq t u || false then ids_of_type u r else [])
unfolding ids_of_type
filter-ids_of_type t ResourceType.open_shift_resource r = filter-map _ _ _ r.open_shift (λ x. refl)
filter-ids_of_type t ResourceType.git_resource r = filter-map _ _ _ r.git (λ x. refl)
filter-ids_of_type t ResourceType.artifacts_resource r = filter-map _ _ _ r.artifacts (λ x. refl)
filter-ids_of_type t ResourceType.platform_resource r = filter-map _ _ _ r.platform (λ x. refl)
filter-ids_of_type t ResourceType.proxy_resource r = filter-map _ _ _ r.proxy (λ x. refl)
filter-ids_of_type t (ResourceType.other u) r =
    elim (Bool-cases (type_beq t (ResourceType.other u) || false)) [
      | inl same ↦ rw same
      | inr different ↦ rw different
    ]

flat : List ResourceType → Resources → List ResourceIdentifier
flat [] r = []
flat (t ∷ types) r = ids_of_type t r ++ flat types r

ids_from-flat :
    (types : List ResourceType) (r : Resources) (before : List ResourceIdentifier)
    → ids_from before types r ≡ before ++ flat types r
unfolding ids_from flat
ids_from-flat [] r before = sym (append-nil before)
ids_from-flat (t ∷ types) r before =
    ids_from-flat types r (before ++ ids_of_type t r)
    ∙ append_assoc before (ids_of_type t r) (flat types r)

filter-flat :
    (t : ResourceType) (types : List ResourceType) (r : Resources)
    → filter (λ id. any (λ x. type_beq x id.type) (t ∷ [])) (flat types r)
      ≡ flat (filter (λ u. type_beq t u || false) types) r
unfolding flat
filter-flat t [] r = refl
filter-flat t (u ∷ types) r =
    filter-append (λ id. any (λ x. type_beq x id.type) (t ∷ [])) (ids_of_type u r) (flat types r)
    ∙ rw (filter-ids_of_type t u r) (rw (filter-flat t types r) (step (type_beq t u || false)))
  where
    step :
        (b : Bool)
        → (if b then ids_of_type u r else []) ++ flat (filter (λ u. type_beq t u || false) types) r
          ≡ flat
              (if b
                then u ∷ filter (λ u. type_beq t u || false) types
                else filter (λ u. type_beq t u || false) types)
              r
    step true = refl
    step false = refl

one_type :
    (t : ResourceType) (r : Resources)
    → flat (filter (λ u. type_beq t u || false) all_resources) r ≡ flat (t ∷ []) r
unfolding flat ids_of_type
one_type ResourceType.open_shift_resource r = refl
one_type ResourceType.git_resource r = refl
one_type ResourceType.artifacts_resource r = refl
one_type ResourceType.platform_resource r = refl
one_type ResourceType.proxy_resource r = refl
one_type (ResourceType.other t) r = refl

-- A store that a loaded loader makes answers, for each type, the identifiers of that type's list,
-- in their order: those that the loader itself answers for it.
pub ids_of-store :
    (t : ResourceType) (l : ResourcesLoader) (s : ResourcesStore)
    → store l ≡ some s
    → ids_of (t ∷ []) s ≡ ids (t ∷ []) l.resources
unfolding store ids_of ids
ids_of-store t l s h = elim (Bool-cases l.loaded) [
  | inl done ↦
      let made : s.ids ≡ ids_from [] all_resources l.resources = ground arith in
      ap test made
      ∙ ap test (ids_from-flat all_resources l.resources [])
      ∙ filter-flat t all_resources l.resources
      ∙ one_type t l.resources
      ∙ sym (ids_from-flat (t ∷ []) l.resources [])
  | inr not_yet ↦ absurd (ground arith)
]
  where
    test : List ResourceIdentifier → List ResourceIdentifier
    test xs = filter (λ id. any (λ x. type_beq x id.type) (t ∷ [])) xs
