-- ===== src/Widget/Collection/Validation.antt =====
-- When a validation disables the addition of items and the editing of the others.
use mathlib.Core.Path.{subst}
use art_platform.Common.{
  ℕ, ◌≡◌, refl, sym, Bool, true, false, not, ◌&&◌, ◌||◌, Option, none, some, List, [], ◌∷◌, arith,
  if◌then◌else◌, DeepEqual, ◌==◌, nat_eq, bool_eq, any,
}
use art_platform.Pattern.Property.{Property, set_value, clear}
use art_platform.Widget.Collection.Defs.{
  Collection, CollectionItem, Call, conclude, blocked, enable, set_addition, set_exclusion,
  clear_exclusion, validate_items_except, enable_addition, enable_editing, disable,
}

module _ {ℓ κ} {T : Type ℓ} {H : Type κ} ⦃e : DeepEqual T⦄ where
  -- Without guards every value is accepted.
  set_value_unguarded :
      (v : T) (p : Property T H)
      → p.before_update ≡ []
      → ((set_value (some v) p).0.value ≡ some v) × ((set_value (some v) p).0.before_update ≡ [])
  unfolding set_value
  set_value_unguarded v p h = ground arith

abbrev is_present {ℓ} : {A : Type ℓ} → Option A → Bool
is_present none = false
is_present (some a) = true

module _ {ℓ} {W V : Type ℓ} ⦃e : DeepEqual V⦄ (invalid : W → Bool) (value : W → V) where
  -- The item is invalid, or it is another one with the same value.
  abbrev pub blocks : CollectionItem W → CollectionItem W → Bool
  blocks except x =
      invalid x.widget || (not (x.id == except.id) && (value except.widget == value x.widget))

  blocked-any :
      (except : CollectionItem W) (items : List (CollectionItem W))
      → is_present (blocked invalid value except items) ≡ any (blocks except) items
  unfolding blocked
  blocked-any except [] = refl
  blocked-any except (x ∷ items) = ground (arith, blocked-any except items)

-- What the properties of a collection hold, where nothing guards them.
pub record Holds {ℓ} {W L : Type ℓ} (added : Bool) (exclusion : Option ℕ) (c : Collection W L)
    : Type ℓ where
  pub addition : c.addition_disabled.value ≡ some added
  pub editing : c.editing_disabled.value ≡ exclusion
  pub addition_unguarded : c.addition_disabled.before_update ≡ []
  pub editing_unguarded : c.editing_disabled.before_update ≡ []

module _ {ℓ} {W L : Type ℓ} where
  set_addition-Holds :
      (b old : Bool) (x : Option ℕ) (c : Collection W L)
      → Holds old x c
      → Holds b x (set_addition b c).0
  unfolding set_addition
  set_addition-Holds b old x c h =
      let done = set_value_unguarded b c.addition_disabled h.addition_unguarded in
      record {
        addition = done.0;
        editing = h.editing;
        addition_unguarded = done.1;
        editing_unguarded = h.editing_unguarded;
      }

  set_exclusion-Holds :
      (id : ℕ) (b : Bool) (x : Option ℕ) (c : Collection W L)
      → Holds b x c
      → Holds b (some id) (set_exclusion id c).0
  unfolding set_exclusion
  set_exclusion-Holds id b x c h =
      let done = set_value_unguarded id c.editing_disabled h.editing_unguarded in
      record {
        addition = h.addition;
        editing = done.0;
        addition_unguarded = h.addition_unguarded;
        editing_unguarded = done.1;
      }

  clear_exclusion-Holds :
      (b : Bool) (x : Option ℕ) (c : Collection W L)
      → Holds b x c
      → Holds b none (clear_exclusion c).0
  unfolding clear_exclusion clear
  clear_exclusion-Holds b x c h = record {
    addition = h.addition;
    editing = refl;
    addition_unguarded = h.addition_unguarded;
    editing_unguarded = h.editing_unguarded;
  }

  enable_addition_busy :
      (c : Collection W L)
      → c.addition_disabled.value ≡ some true
      → (enable_addition c).0 ≡ (set_addition false c).0
  unfolding enable_addition
  enable_addition_busy c h = ground (arith, h)

  enable_editing_busy :
      (c : Collection W L) (x : ℕ)
      → c.editing_disabled.value ≡ some x
      → (enable_editing c).0 ≡ (clear_exclusion c).0
  unfolding enable_editing
  enable_editing_busy c x h = ground (arith, h)

  enable_addition_idle :
      (c : Collection W L) → c.addition_disabled.value ≡ some false → (enable_addition c).0 ≡ c
  unfolding enable_addition
  enable_addition_idle c h = ground (arith, h)

  enable_editing_idle :
      (c : Collection W L) → c.editing_disabled.value ≡ none → (enable_editing c).0 ≡ c
  unfolding enable_editing
  enable_editing_idle c h = ground (arith, h)

  enable_addition-Holds :
      (b : Bool) (x : Option ℕ) (c : Collection W L)
      → Holds b x c
      → Holds false x (enable_addition c).0
  enable_addition-Holds true x c h =
      subst (Holds false x) (sym (enable_addition_busy c h.addition))
        (set_addition-Holds false true x c h)
  enable_addition-Holds false x c h =
      subst (Holds false x) (sym (enable_addition_idle c h.addition)) h

  enable_editing-Holds :
      (b : Bool) (x : Option ℕ) (c : Collection W L)
      → Holds b x c
      → Holds b none (enable_editing c).0
  enable_editing-Holds b none c h = subst (Holds b none) (sym (enable_editing_idle c h.editing)) h
  enable_editing-Holds b (some x) c h =
      subst (Holds b none) (sym (enable_editing_busy c x h.editing))
        (clear_exclusion-Holds b (some x) c h)

  enable-Holds :
      (b : Bool) (x : Option ℕ) (c : Collection W L) → Holds b x c → Holds false none (enable c).0
  unfolding enable
  enable-Holds b x c h =
      enable_editing-Holds false x (enable_addition c).0 (enable_addition-Holds b x c h)

  disable-Holds :
      (id : ℕ) (b : Bool) (x : Option ℕ) (c : Collection W L)
      → Holds b x c
      → Holds true (some id) (disable id c).0
  disable-Holds id b x c h =
      set_exclusion-Holds id true x (set_addition true c).0 (set_addition-Holds true b x c h)

  conclude-Holds :
      (except : CollectionItem W) (stop : Option Bool) (done : Collection W L × List (Call W L))
      → Holds false none done.0
      → Holds
          (is_present stop)
          (if is_present stop then some except.id else none)
          (conclude except stop done).0
  conclude-Holds except none done h = h
  conclude-Holds except (some false) done h = disable-Holds except.id false none done.0 h
  conclude-Holds except (some true) done h = disable-Holds except.id false none done.0 h

module _ {ℓ} {W L V : Type ℓ} ⦃e : DeepEqual V⦄ (invalid : W → Bool) (value : W → V) where
  -- A validation leaves the addition disabled exactly if some item is invalid or equals the given
  -- one, which is not itself; and exactly then it disables the editing of all but the given item,
  -- and else of none. Nothing of what was disabled before stays.
  pub validate_items_except_lem :
      (except : CollectionItem W) (c : Collection W L) (b : Bool) (x : Option ℕ)
      → Holds b x c
      → let stops = any (blocks invalid value except) c.items in
        Holds stops
          (if stops then some except.id else none)
          (validate_items_except invalid value except c).0
  unfolding validate_items_except
  validate_items_except_lem except c b x h =
      subst
        (λ stops.
          Holds stops (if stops then some except.id else none)
            (validate_items_except invalid value except c).0)
        (blocked-any invalid value except c.items)
        (conclude-Holds except (blocked invalid value except c.items) (enable c)
          (enable-Holds b x c h))
