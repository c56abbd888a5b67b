-- ===== src/Page/Registration.antt =====
-- component/pages/registration/RegistrationPage.ts: the form of a registration, what it lets through,
-- and the request with its answers.
pub mod Validation
pub mod Runs
use art_platform.Common.{
  ◌≡◌, ◌≢◌, ◌∙◌, refl, ap, Bool, true, false, not, ◌&&◌, ◌||◌, Option, none, some, String, List, [],
  ◌∷◌, arith, if◌then◌else◌, ◌==◌, string_eq, ==_iff, any,
}
use art_platform.Service.ModuleService.{is_filled}
use art_platform.Widget.TextField.{
  TextField, text_field, set_text, set_error, set_disabled, violates, set_text_unmasked,
}

pub record Registration : Type 0 where
  pub name : TextField
  pub password : TextField
  pub full_name : TextField
  pub email : TextField
  pub user_names : List String
  pub user_emails : List String
  pub continue_disabled : Bool

-- The constructor, with the regular expressions of the four fields.
unfoldable pub registration_page :
    (String → Bool) → (String → Bool) → (String → Bool) → (String → Bool) → Registration
unfolding text_field
registration_page user_name_regex password_regex full_name_regex email_regex = record {
  name = text_field none none (some user_name_regex);
  password = text_field none none (some password_regex);
  full_name = text_field none none (some full_name_regex);
  email = text_field none none (some email_regex);
  user_names = [];
  user_emails = [];
  continue_disabled = true;
}

abbrev pub includes : List String → String → Bool
includes texts text = any (λ t. t == text) texts

-- `#validateDuplicates`
unfoldable pub validate_duplicates : Registration → Registration
unfolding set_error
validate_duplicates r = record r {
  name = if includes r.user_names r.name.text then set_error true r.name else r.name;
  email = if includes r.user_emails r.email.text then set_error true r.email else r.email;
}

-- `empties` and `errors` of `#validate`
abbrev pub empties : Registration → Bool
empties r =
    not (is_filled r.name.text)
    || not (is_filled r.password.text)
    || not (is_filled r.full_name.text)
    || not (is_filled r.email.text)

abbrev pub errors : Registration → Bool
errors r = r.name.error || r.email.error || r.password.error || r.password.error

-- `#validate`
unfoldable pub validate : Registration → Registration
validate r =
    let checked = validate_duplicates r in
    record checked { continue_disabled = empties checked || errors checked }

pub data Field : Type 0 where
  name_field password_field full_name_field email_field : Field

-- A text is typed into a field, whose listener validates.
unfoldable pub write : Field → String → Registration → Registration
write name_field text r =
    let (f, told) = set_text text r.name in
    if told then validate (record r { name = f }) else record r { name = f }
write password_field text r =
    let (f, told) = set_text text r.password in
    if told then validate (record r { password = f }) else record r { password = f }
write full_name_field text r =
    let (f, told) = set_text text r.full_name in
    if told then validate (record r { full_name = f }) else record r { full_name = f }
write email_field text r =
    let (f, told) = set_text text r.email in
    if told then validate (record r { email = f }) else record r { email = f }

-- The answers of `getUserNames` and `getUserEmails`.
unfoldable pub receive_names : List String → Registration → Registration
receive_names names r = validate_duplicates (record r { user_names = names })

unfoldable pub receive_emails : List String → Registration → Registration
receive_emails emails r = validate_duplicates (record r { user_emails = emails })

unfoldable pub disable : Registration → Registration
unfolding set_disabled
disable r = record r {
  continue_disabled = true;
  name = set_disabled true r.name;
  full_name = set_disabled true r.full_name;
  email = set_disabled true r.email;
  password = set_disabled true r.password;
}

unfoldable pub enable : Registration → Registration
unfolding set_disabled
enable r = record r {
  continue_disabled = false;
  name = set_disabled false r.name;
  full_name = set_disabled true r.full_name;
  email = set_disabled true r.email;
  password = set_disabled false r.password;
}

-- `register`: whether the user is registered with the API.
unfoldable pub register : Registration → Registration × Bool
unfolding disable
register r = if empties r then (r, false) else (disable r, true)

pub data Event : Type 0 where
  types : Field → String → Event
  names_received emails_received : List String → Event

unfoldable pub step : Event → Registration → Registration
step (types field text) r = write field text r
step (names_received names) r = receive_names names r
step (emails_received emails) r = receive_emails emails r

unfoldable pub run : List Event → Registration → Registration
run [] r = r
run (event ∷ events) r = run events (step event r)
