-- ===== src/Page/Filtering.antt =====
-- component/pages/module/ModulesPage.tsx: the requests of the filter, whose answers come in any order,
-- with the refresh of the cards. `filtering` is the field `#filtering`, which shows a loader.
use art_platform.Common.{
  ◌⊎◌, ℕ, zero, suc, ◌≡◌, refl, sym, ap, ◌∙◌, Bool, true, false, not, none, some, List, [], ◌∷◌,
  ◌++◌, map, any, any-append, get_elem?, remove_at, Option-cases, inl, inr, arith, if◌then◌else◌,
  nat_eq,
}
use mathlib.Core.Path.{subst}
use art_platform.Model.Modules.{ModuleInformation}
use art_platform.Extensions.Maps.{contains, Unique}
use art_platform.Page.Modules.{
  Cards, IsKept, refresh_cards, refresh_cards-silent, refresh_cards-arranged,
}

pub record Page : Type 0 where
  pub modules : List ModuleInformation
  pub cards : Cards
  pub filtering : Bool
  -- of each request that waits, whether it is silent
  pub requests : List Bool

-- The page starts with the modules of its context, and without cards.
abbrev pub new_page : List ModuleInformation → Page
new_page modules = record {
  modules = modules;
  cards = record { items = []; keys = [] };
  filtering = true;
  requests = [];
}

-- `#filterModules`
unfoldable pub filter_modules : Bool → Page → Page
filter_modules silent p = record p {
  filtering = if silent then p.filtering else true;
  requests = p.requests ++ silent ∷ [];
}

-- `#refreshCards`, as the answer of a request
unfoldable pub refresh : Bool → List ModuleInformation → Page → Page
refresh silent modules p = record p {
  modules = modules;
  cards = refresh_cards modules silent p.cards;
  filtering = if silent then p.filtering else false;
}

unfoldable pub answer : ℕ → List ModuleInformation → Page → Page
unfolding refresh
answer i modules p = elim (get_elem? p.requests i) [
  | none ↦ p
  | some silent ↦ refresh silent modules (record p { requests = remove_at i p.requests })
]

pub data Event : Type 0 where
  filters : Bool → Event
  answers : ℕ → List ModuleInformation → Event

unfoldable pub step : Event → Page → Page
unfolding filter_modules answer
step (filters silent) p = filter_modules silent p
step (answers i modules) p = answer i modules p

unfoldable pub run : List Event → Page → Page
run [] p = p
run (event ∷ events) p = run events (step event p)

-- The ids in an answer are distinct.
abbrev pub AnswersUnique : List Event → Type 0
AnswersUnique [] = Unit
AnswersUnique (filters silent ∷ events) = AnswersUnique events
AnswersUnique (answers i modules ∷ events) = Unique (map (λ m. m.id) modules) × AnswersUnique events

abbrev not_silent : Bool → Bool
not_silent silent = not silent

-- The loader is shown only while a request that is not silent waits, and the cards are those of the
-- modules that the page has, if these are not those of the context any more.
pub record IsShown (context : List ModuleInformation) (p : Page) : Type 0 where
  pub waits : p.filtering ≡ true → any not_silent p.requests ≡ true
  pub kept : IsKept p.cards
  pub shown :
      ((p.modules ≡ context) × (p.cards.keys ≡ []))
      ⊎ ((k : ℕ) → contains k p.cards.keys ≡ contains k (map (λ m. m.id) p.modules))

filter_modules-IsShown :
    (silent : Bool) (context : List ModuleInformation) (p : Page)
    → IsShown context p
    → IsShown context (filter_modules silent p)
unfolding filter_modules
filter_modules-IsShown true context p s = record {
  waits = λ f. any-append not_silent p.requests (true ∷ []) ∙ ground (arith, s.waits f);
  kept = s.kept;
  shown = s.shown;
}
filter_modules-IsShown false context p s = record {
  waits = λ f. any-append not_silent p.requests (false ∷ []) ∙ ground arith;
  kept = s.kept;
  shown = s.shown;
}

-- Where a silent request is taken out, one that is not silent is still there.
any-remove_at :
    (i : ℕ) (requests : List Bool)
    → get_elem? requests i ≡ some true
    → any not_silent requests ≡ true
    → any not_silent (remove_at i requests) ≡ true
any-remove_at i [] e h = h
any-remove_at zero (silent ∷ requests) e h = ground (arith, e)
any-remove_at (suc i) (silent ∷ requests) e h = ground (arith, any-remove_at i requests e)

answer-IsShown :
    (i : ℕ) (modules context : List ModuleInformation) (p : Page)
    → Unique (map (λ m. m.id) modules)
    → IsShown context p
    → IsShown context (answer i modules p)
unfolding answer refresh
answer-IsShown i modules context p u s = elim (Option-cases (get_elem? p.requests i)) [
  | inl missing ↦ rw (missing, answer) s
  | inr (true, e) ↦
      let (cards, kept) = refresh_cards-silent modules p.cards s.kept in
      rw (e, answer)
        (record {
          waits = λ f. any-remove_at i p.requests e (s.waits f);
          kept = kept;
          shown = inr cards;
        })
  | inr (false, e) ↦
      let (cards, in_sync) = refresh_cards-arranged modules p.cards s.kept in
      rw (e, answer)
        (record {
          waits = λ f. absurd (cc);
          kept = record { in_sync = in_sync; unique = subst Unique (sym cards) u };
          shown = inr (λ k. ap (contains k) cards);
        })
]

run-IsShown :
    (events : List Event) (context : List ModuleInformation) (p : Page)
    → AnswersUnique events
    → IsShown context p
    → IsShown context (run events p)
unfolding run step
run-IsShown [] context p u s = s
run-IsShown (filters silent ∷ events) context p u s =
    run-IsShown events context (step (filters silent) p) u
      (filter_modules-IsShown silent context p s)
run-IsShown (answers i modules ∷ events) context p (here, u) s =
    run-IsShown events context (step (answers i modules) p) u
      (answer-IsShown i modules context p here s)

-- A new page that is filtered, first not silently, and is answered in any order with modules of
-- distinct ids, shows its loader only while a request that is not silent waits, and has no two cards
-- under one key. It has the modules of the context and no cards, or exactly the cards of its modules.
pub run-new_page :
    (events : List Event) (context : List ModuleInformation)
    → AnswersUnique events
    → IsShown context (run events (filter_modules false (new_page context)))
unfolding filter_modules
run-new_page events context u =
    run-IsShown events context (filter_modules false (new_page context)) u (record {
      waits = λ f. refl;
      kept = record { in_sync = refl; unique = tt };
      shown = inl (refl, refl);
    })
