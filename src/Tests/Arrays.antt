-- ===== src/Tests/Arrays.antt =====
-- The extensions of arrays and maps on numbers.
use mathlib.Core.List.{Perm}
use art_platform.Common.{
  ℕ, ◌≡◌, refl, true, none, some, List, [], ◌∷◌, filter, arith, ◌==◌, if◌then◌else◌, nat_eq,
}
use art_platform.Extensions.Maps.{contains, get}
use art_platform.Extensions.Grouping.{group_by_many, extend, get-group_by_many}
use art_platform.Extensions.Duplicates.{AllDiffer, cross_equals, cross_equals-perm}
use art_platform.Extensions.Arrays.{has, chunks, IsCut, chunks-IsCut}

abbrev parity : ℕ → ℕ
parity n = if n == 1 then 1 else (if n == 3 then 1 else 0)

get-group_by_many_example :
    get 1 (group_by_many parity (1 ∷ 2 ∷ 3 ∷ []))
    ≡ extend parity none (filter (λ x. parity x == 1) (1 ∷ 2 ∷ 3 ∷ []))
get-group_by_many_example = get-group_by_many parity 1 (1 ∷ 2 ∷ 3 ∷ [])

equal_by_elements : cross_equals {A = ℕ} (some (1 ∷ 2 ∷ [])) (some (2 ∷ 1 ∷ [])) ≡ some true
unfolding cross_equals has
equal_by_elements = refl

all_differ : AllDiffer {A = ℕ} (1 ∷ 2 ∷ [])
unfolding contains
all_differ = ground arith

cross_equals-perm_example : Perm {A = ℕ} (1 ∷ 2 ∷ []) (2 ∷ 1 ∷ [])
cross_equals-perm_example = cross_equals-perm (1 ∷ 2 ∷ []) (2 ∷ 1 ∷ []) all_differ equal_by_elements

chunks-IsCut_example :
    (cs : List (List ℕ)) × (chunks 2 (1 ∷ 2 ∷ 3 ∷ []) ≡ some cs) × IsCut 2 (1 ∷ 2 ∷ 3 ∷ []) cs
chunks-IsCut_example = chunks-IsCut 2 (1 ∷ 2 ∷ 3 ∷ []) (omega arith)
