-- ===== src/Widget/TextField.antt =====
-- framework/dsl/managed/ManagedTextField.tsx: the text of a field with its mask, its regular expression
-- and its error. Regular expressions are tests of texts; `none` is an absent one.
use art_platform.Common.{
  ◌≡◌, ◌≢◌, refl, ap, ==_false, Bool, true, false, not, ◌&&◌, Option, none, some, String, arith,
  if◌then◌else◌, ◌==◌, string_eq, ==_iff,
}
use art_platform.Service.ModuleService.{is_filled}

pub record TextField : Type 0 where
  pub text : String
  pub error : Bool
  pub disabled : Bool
  pub mask : Option (String → Bool)
  pub regexp : Option (String → Bool)

-- The constructor of the configuration: `value` is absent or given.
unfoldable pub text_field :
    Option String → Option (String → Bool) → Option (String → Bool) → TextField
text_field none mask regexp = record {
  text = "";
  error = false;
  disabled = false;
  mask = mask;
  regexp = regexp;
}
text_field (some value) mask regexp = record {
  text = value;
  error = false;
  disabled = false;
  mask = mask;
  regexp = regexp;
}

-- `value && regexp && !value.match(regexp)`
abbrev pub violates : String → Option (String → Bool) → Bool
violates value none = false
violates value (some matches) = is_filled value && not (matches value)

-- `setText`, with the guard of the property `text`: the field, and whether the listeners of the text
-- are called. An equal text is neither guarded nor told.
unfoldable pub set_text : String → TextField → TextField × Bool
set_text value f =
    if f.text == value
    then (f, false)
    else (if violates value f.mask
        then (f, false)
        else (record f { text = value; error = violates value f.regexp }, true))

unfoldable pub set_error : Bool → TextField → TextField
set_error error f = record f { error = error }

unfoldable pub set_disabled : Bool → TextField → TextField
set_disabled disabled f = record f { disabled = disabled }

-- A text that passes the mask is taken, with an error exactly if it is not empty and violates the
-- regular expression; another is refused, with the error as it was.
pub set_text_lem :
    (value : String) (f : TextField)
    → f.text ≢ value
    → let (g, told) = set_text value f in
      (told ≡ not (violates value f.mask))
      × (g.text ≡ (if violates value f.mask then f.text else value))
      × (g.error ≡ (if violates value f.mask then f.error else violates value f.regexp))
unfolding set_text
set_text_lem value f changed = ground (arith, ==_iff f.text value, changed)

-- Without a mask a text that differs from the one before is taken.
pub set_text_unmasked :
    (value : String) (f : TextField)
    → f.mask ≡ none
    → f.text ≢ value
    → set_text value f ≡ (record f { text = value; error = violates value f.regexp }, true)
unfolding set_text
set_text_unmasked value f unmasked changed =
    let masked : violates value f.mask ≡ false = ap (violates value) unmasked in
    let other : (f.text == value) ≡ false = ==_false f.text value changed in
    simp (masked, other) refl
