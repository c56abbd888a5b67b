-- ===== src/Page/Registration/Validation.antt =====
-- What the form of a registration lets through.
use art_platform.Common.{
  ◌≡◌, ◌≢◌, ◌∙◌, refl, ap, Bool, true, false, not, ◌&&◌, ◌||◌, none, String, List, arith,
  if◌then◌else◌, string_eq,
}
use art_platform.Widget.TextField.{TextField, set_error, set_disabled, violates, set_text_unmasked}
use art_platform.Page.Registration.{
  Registration, includes, empties, validate_duplicates, validate, Field, name_field, password_field,
  full_name_field, email_field, write, receive_names, register, enable,
}

-- What the form shows as wrong, of its texts and the answers it has.
abbrev pub acceptable : Registration → Bool
acceptable r =
    not (violates r.name.text r.name.regexp)
    && not (includes r.user_names r.name.text)
    && not (violates r.email.text r.email.regexp)
    && not (includes r.user_emails r.email.text)
    && not (violates r.password.text r.password.regexp)

-- The errors of the fields are those of their texts, for the answers that there are.
pub record IsChecked (r : Registration) : Type 0 where
  pub unmasked :
      (r.name.mask ≡ none)
      × (r.password.mask ≡ none)
      × (r.full_name.mask ≡ none)
      × (r.email.mask ≡ none)
  pub name_checked :
      r.name.error ≡ (violates r.name.text r.name.regexp || includes r.user_names r.name.text)
  pub email_checked :
      r.email.error ≡ (violates r.email.text r.email.regexp || includes r.user_emails r.email.text)
  pub password_checked : r.password.error ≡ violates r.password.text r.password.regexp

-- The errors before the duplicates are looked for.
record IsTyped (r : Registration) : Type 0 where
  unmasked :
      (r.name.mask ≡ none)
      × (r.password.mask ≡ none)
      × (r.full_name.mask ≡ none)
      × (r.email.mask ≡ none)
  name_typed :
      (r.name.error || includes r.user_names r.name.text)
      ≡ (violates r.name.text r.name.regexp || includes r.user_names r.name.text)
  email_typed :
      (r.email.error || includes r.user_emails r.email.text)
      ≡ (violates r.email.text r.email.regexp || includes r.user_emails r.email.text)
  password_typed : r.password.error ≡ violates r.password.text r.password.regexp

-- The form is checked, and the button disabled exactly if a field is empty or a text not acceptable.
abbrev pub IsValidated : Registration → Type 0
IsValidated r = IsChecked r × (r.continue_disabled ≡ (empties r || not (acceptable r)))

mark_lem :
    (taken : Bool) (f : TextField)
    → (if taken then set_error true f else f) ≡ record f { error = taken || f.error }
unfolding set_error
mark_lem true f = refl
mark_lem false f = refl

pub validate_duplicates_lem :
    (r : Registration)
    → validate_duplicates r ≡ record r {
      name = record r.name { error = includes r.user_names r.name.text || r.name.error };
      email = record r.email { error = includes r.user_emails r.email.text || r.email.error };
    }
unfolding validate_duplicates
validate_duplicates_lem r = λ i. record r {
  name = mark_lem (includes r.user_names r.name.text) r.name i;
  email = mark_lem (includes r.user_emails r.email.text) r.email i;
}

or_comm : (a b : Bool) → (a || b) ≡ (b || a)
or_comm a b = ground arith

validate-IsValidated : (r : Registration) → IsTyped r → IsValidated (validate r)
unfolding validate
validate-IsValidated r t =
    rw (validate_duplicates_lem r, validate)
      (
        record {
          unmasked = t.unmasked;
          name_checked = or_comm _ r.name.error ∙ t.name_typed;
          email_checked = or_comm _ r.email.error ∙ t.email_typed;
          password_checked = t.password_typed;
        },
        ground (arith, t.name_typed, t.email_typed, t.password_typed),
      )

absorb : (e v i : Bool) → e ≡ (v || i) → (e || i) ≡ (v || i)
absorb e v i h = ground (arith, h)

abbrev pub text_of : Field → Registration → String
text_of name_field r = r.name.text
text_of password_field r = r.password.text
text_of full_name_field r = r.full_name.text
text_of email_field r = r.email.text

-- A form without masks, whose errors are those of its texts, is typed into: into any field, a text
-- that differs from the one before. Then the errors are again those of the texts, and the button is
-- disabled exactly if a field is empty, the name, the password or the address does not match its
-- expression, or the name or the address is taken: the expression of the full name is not asked for.
pub write-IsValidated :
    (field : Field) (text : String) (r : Registration)
    → IsChecked r
    → text_of field r ≢ text
    → IsValidated (write field text r)
unfolding write
write-IsValidated name_field text r c changed =
    let typed = record r.name { text = text; error = violates text r.name.regexp } in
    rw (set_text_unmasked text r.name c.unmasked.0 changed, write)
      (validate-IsValidated (record r { name = typed })
        (record {
          unmasked = c.unmasked;
          name_typed = refl;
          email_typed = absorb _ _ _ c.email_checked;
          password_typed = c.password_checked;
        }))
write-IsValidated password_field text r c changed =
    let typed = record r.password { text = text; error = violates text r.password.regexp } in
    rw (set_text_unmasked text r.password c.unmasked.1 changed, write)
      (validate-IsValidated (record r { password = typed })
        (record {
          unmasked = c.unmasked;
          name_typed = absorb _ _ _ c.name_checked;
          email_typed = absorb _ _ _ c.email_checked;
          password_typed = refl;
        }))
write-IsValidated full_name_field text r c changed =
    let typed = record r.full_name { text = text; error = violates text r.full_name.regexp } in
    rw (set_text_unmasked text r.full_name c.unmasked.2 changed, write)
      (validate-IsValidated (record r { full_name = typed })
        (record {
          unmasked = c.unmasked;
          name_typed = absorb _ _ _ c.name_checked;
          email_typed = absorb _ _ _ c.email_checked;
          password_typed = c.password_checked;
        }))
write-IsValidated email_field text r c changed =
    let typed = record r.email { text = text; error = violates text r.email.regexp } in
    rw (set_text_unmasked text r.email c.unmasked.3 changed, write)
      (validate-IsValidated (record r { email = typed })
        (record {
          unmasked = c.unmasked;
          name_typed = absorb _ _ _ c.name_checked;
          email_typed = refl;
          password_typed = c.password_checked;
        }))

-- Names of users that come after the texts mark a taken name, but leave the button as it was.
pub receive_names_lem :
    (names : List String) (r : Registration)
    → includes names r.name.text ≡ true
    → let received = receive_names names r in
      (received.name.error ≡ true) × (received.continue_disabled ≡ r.continue_disabled)
unfolding receive_names
receive_names_lem names r taken =
    rw (validate_duplicates_lem (record r { user_names = names }), receive_names)
      (ap (λ b. b || r.name.error) taken, refl)

-- After an answer of the registration, an error too, neither the full name nor the address can be
-- edited any more, while the button can be pressed.
pub enable-register :
    (r : Registration)
    → let answered = enable (register r).0 in
      (answered.continue_disabled ≡ false)
      × (answered.full_name.disabled ≡ true)
      × (answered.email.disabled ≡ true)
unfolding enable set_disabled
enable-register r = (refl, refl, refl)
