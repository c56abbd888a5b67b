-- ===== src/Extensions/Ranges.antt =====
-- `range` of framework/extensions/extensions.ts, on natural numbers with `start` and `end` in any
-- order. `Math.ceil(d / s)` is `(d + s - 1) / s`; a negative difference gives 0 by `Math.max`, as
-- subtraction on natural numbers does.
use native.Mathlib.Nat.{div-add-mod', mod-lt, mul-le-mul_right, suc-mul}
use art_platform.Common.{
  ℕ, zero, suc, ◌+◌, ◌-◌, ◌*◌, ◌/◌, ◌≡◌, ◌≤◌, ◌<◌, refl, ap, ◌∙◌, some, List, [], ◌∷◌, arith,
  if◌then◌else◌, nat_beq, get_elem?, length,
}

-- `step || 1`
abbrev pub step_or_one : ℕ → ℕ
step_or_one step = if nat_beq step 0 then 1 else step

-- The loop `while (length--)`, on the rounds left.
unfoldable pub fill : ℕ → ℕ → ℕ → List ℕ
fill zero start step = []
fill (suc rounds) start step = start ∷ fill rounds (start + step) step

-- The number of rounds: `Math.max(Math.ceil((end - start) / (step || 1)), 0) + 1`
unfoldable pub range_length : ℕ → ℕ → ℕ → ℕ
range_length end start step = (end - start + step_or_one step - 1) / step_or_one step + 1

unfoldable pub range : ℕ → ℕ → ℕ → List ℕ
unfolding fill range_length
range end start step = fill (range_length end start step) start step

length-fill : (rounds start step : ℕ) → length (fill rounds start step) ≡ rounds
unfolding fill
length-fill zero start step = refl
length-fill (suc rounds) start step = omega (arith, length-fill rounds (start + step) step)

get_elem?-fill :
    (rounds start step i : ℕ)
    → i < rounds
    → get_elem? (fill rounds start step) i ≡ some (start + i * step)
unfolding fill
get_elem?-fill zero start step i h = elim h [ ]
get_elem?-fill (suc rounds) start step zero h = ground arith
get_elem?-fill (suc rounds) start step (suc i) h =
    ground (arith, get_elem?-fill rounds (start + step) step i)

-- `range` lists `start + i * step` for each `i` below its length.
pub get_elem?-range :
    (end start step i : ℕ)
    → i < length (range end start step)
    → get_elem? (range end start step) i ≡ some (start + i * step)
unfolding range
get_elem?-range end start step i h =
    get_elem?-fill (range_length end start step) start step i
      (omega (arith, length-fill (range_length end start step) start step))

length-range :
    (end start step : ℕ)
    → 0 < step
    → length (range end start step) ≡ (end - start + step - 1) / step + 1
unfolding range range_length
length-range end start step h =
    length-fill (range_length end start step) start step
    ∙ ap (λ s. (end - start + s - 1) / s + 1) {x = step_or_one step} (ground arith)

-- With a positive step the last mark is the first that is not below `end`: it reaches `end`, and
-- all before it are below `end`.
pub range_last :
    (end start step : ℕ)
    → 0 < step
    → start ≤ end
    → (n : ℕ) × (length (range end start step) ≡ suc n)
      × (end ≤ start + n * step)
      × ((i : ℕ) → i < n → start + i * step < end)
range_last end start step h le =
    let d = end - start + step - 1 in
    let n = d / step in
    (
      n,
      omega (arith, length-range end start step h),
      omega (arith, div-add-mod' d step, mod-lt d {m = step} h),
      λ i lt. omega (
        arith,
        div-add-mod' d step,
        mod-lt d {m = step} h,
        mul-le-mul_right {m = suc i} {n = n} step lt,
        suc-mul i step,
      ),
    )
