-- ===== src/Page/Filter.antt =====
-- component/embeddable/filter/Filter.ts: the check boxes of the states, which each drawing makes or
-- takes again, and the states that are filtered by them. Of a check box it has what it shows.
use art_platform.Common.{
  ◌≡◌, refl, sym, ◌∙◌, Bool, false, none, some, String, List, [], ◌∷◌, arith, if◌then◌else◌, ◌==◌,
  string_eq, bool_eq, Option-cases, inl, inr,
}
use art_platform.Extensions.Maps.{keys, filter_values, get, set}

pub record StatesFilter : Type 0 where
  pub checkboxes : List (String × Bool)
  pub filtered_states : List String

abbrev pub new_filter : StatesFilter
new_filter = record { checkboxes = []; filtered_states = [] }

-- The check box of a state in a drawing; an object that is there is truthy.
unfoldable pub draw_state : String → StatesFilter → StatesFilter
draw_state state f = elim (get state f.checkboxes) [
  | some checked ↦ record f { checkboxes = set state checked f.checkboxes }
  | none ↦ record f { checkboxes = set state false f.checkboxes }
]

unfoldable pub draw_states : List String → StatesFilter → StatesFilter
draw_states [] f = f
draw_states (state ∷ states) f = draw_states states (draw_state state f)

-- `#statesFilter`, with the groups of the states
unfoldable pub draw : List (List String) → StatesFilter → StatesFilter
draw [] f = f
draw (group ∷ groups) f = draw groups (draw_states group f)

abbrev is_checked : Bool → Bool
is_checked checked = checked

abbrev pub checked_states : List (String × Bool) → List String
checked_states checkboxes = keys (filter_values is_checked checkboxes)

-- The change of a check box: its property tells only another value.
unfoldable pub check : String → Bool → StatesFilter → StatesFilter
check state value f = elim (get state f.checkboxes) [
  | none ↦ f
  | some checked ↦ if checked == value then f else record {
    checkboxes = set state value f.checkboxes;
    filtered_states = checked_states (set state value f.checkboxes);
  }
]

pub data Event : Type 0 where
  drawn : List (List String) → Event
  checks : String → Bool → Event

unfoldable pub step : Event → StatesFilter → StatesFilter
step (drawn groups) f = draw groups f
step (checks state value) f = check state value f

unfoldable pub run : List Event → StatesFilter → StatesFilter
run [] f = f
run (event ∷ events) f = run events (step event f)

abbrev pub IsFiltered : StatesFilter → Type 0
IsFiltered f = f.filtered_states ≡ checked_states f.checkboxes

-- A check box that is put back leaves the others as they are, and a new one is not checked.
checked_states-set_same :
    (state : String) (checked : Bool) (checkboxes : List (String × Bool))
    → get state checkboxes ≡ some checked
    → checked_states (set state checked checkboxes) ≡ checked_states checkboxes
unfolding get set
checked_states-set_same state checked [] h = cc
checked_states-set_same state checked ((other, shown) ∷ rest) h =
    ground (arith, checked_states-set_same state checked rest, h)

checked_states-set_new :
    (state : String) (checkboxes : List (String × Bool))
    → get state checkboxes ≡ none
    → checked_states (set state false checkboxes) ≡ checked_states checkboxes
unfolding get set
checked_states-set_new state [] h = refl
checked_states-set_new state ((other, shown) ∷ rest) h =
    ground (arith, checked_states-set_new state rest, h)

draw_state-IsFiltered :
    (state : String) (f : StatesFilter) → IsFiltered f → IsFiltered (draw_state state f)
unfolding draw_state
draw_state-IsFiltered state f s = elim (Option-cases (get state f.checkboxes)) [
  | inl missing ↦
      rw (missing, draw_state) (s ∙ sym (checked_states-set_new state f.checkboxes missing))
  | inr (checked, e) ↦
      rw (e, draw_state) (s ∙ sym (checked_states-set_same state checked f.checkboxes e))
]

draw_states-IsFiltered :
    (states : List String) (f : StatesFilter) → IsFiltered f → IsFiltered (draw_states states f)
unfolding draw_states
draw_states-IsFiltered [] f s = s
draw_states-IsFiltered (state ∷ states) f s =
    draw_states-IsFiltered states (draw_state state f) (draw_state-IsFiltered state f s)

draw-IsFiltered :
    (groups : List (List String)) (f : StatesFilter) → IsFiltered f → IsFiltered (draw groups f)
unfolding draw
draw-IsFiltered [] f s = s
draw-IsFiltered (group ∷ groups) f s =
    draw-IsFiltered groups (draw_states group f) (draw_states-IsFiltered group f s)

check-IsFiltered :
    (state : String) (value : Bool) (f : StatesFilter)
    → IsFiltered f
    → IsFiltered (check state value f)
unfolding check
check-IsFiltered state value f s = ground (arith, s)

run-IsFiltered : (events : List Event) (f : StatesFilter) → IsFiltered f → IsFiltered (run events f)
unfolding run step
run-IsFiltered [] f s = s
run-IsFiltered (drawn groups ∷ events) f s =
    run-IsFiltered events (draw groups f) (draw-IsFiltered groups f s)
run-IsFiltered (checks state value ∷ events) f s =
    run-IsFiltered events (check state value f) (check-IsFiltered state value f s)

-- Through any drawings and changes of the check boxes of a new filter, the filtered states are those
-- whose check box is checked, in the order in which the states were first drawn.
pub run-new_filter : (events : List Event) → IsFiltered (run events new_filter)
run-new_filter events = run-IsFiltered events new_filter refl
