-- ===== src/Page/Registration/Runs.antt =====
-- What is typed into the form of a registration while the answers come.
use art_platform.Common.{
  ◌≡◌, ◌≢◌, ◌∙◌, refl, sym, ap, Bool, true, false, ◌||◌, String, List, [], ◌∷◌, arith, ◌==◌,
  string_eq, ==_iff, ==_refl, inl, inr, Bool-cases,
}
use mathlib.Core.Path.{subst}
use art_platform.Widget.TextField.{TextField, text_field, set_text}
use art_platform.Page.Registration.{
  Registration, registration_page, includes, validate_duplicates, validate, Field, name_field,
  password_field, full_name_field, email_field, write, receive_names, receive_emails, Event, types,
  names_received, emails_received, step, run,
}
use art_platform.Page.Registration.Validation.{
  IsChecked, IsValidated, text_of, write-IsValidated, validate_duplicates_lem,
}

-- Each of the two requests is answered once at most; `named` and `mailed` say which are answered.
abbrev pub AnsweredOnce : Bool → Bool → List Event → Type 0
AnsweredOnce named mailed [] = Unit
AnsweredOnce named mailed (types field text ∷ events) = AnsweredOnce named mailed events
AnsweredOnce named mailed (names_received names ∷ events) =
    (named ≡ false) × AnsweredOnce true mailed events
AnsweredOnce named mailed (emails_received emails ∷ events) =
    (mailed ≡ false) × AnsweredOnce named true events

record IsAwaited (named mailed : Bool) (r : Registration) : Type 0 where
  checked : IsChecked r
  names_awaited : named ≡ false → r.user_names ≡ []
  emails_awaited : mailed ≡ false → r.user_emails ≡ []

write-user_names :
    (field : Field) (text : String) (r : Registration)
    → ((write field text r).user_names ≡ r.user_names)
      × ((write field text r).user_emails ≡ r.user_emails)
unfolding write validate validate_duplicates
write-user_names name_field text r = ground arith
write-user_names password_field text r = ground arith
write-user_names full_name_field text r = ground arith
write-user_names email_field text r = ground arith

set_text_same : (f : TextField) → set_text f.text f ≡ (f, false)
unfolding set_text
set_text_same f = rw (==_refl f.text, set_text) refl

-- A text typed anew changes nothing.
write_same : (field : Field) (r : Registration) → write field (text_of field r) r ≡ r
unfolding write
write_same name_field r = rw (set_text_same r.name, write) refl
write_same password_field r = rw (set_text_same r.password, write) refl
write_same full_name_field r = rw (set_text_same r.full_name, write) refl
write_same email_field r = rw (set_text_same r.email, write) refl

write-IsChecked :
    (field : Field) (text : String) (r : Registration)
    → IsChecked r
    → IsChecked (write field text r)
write-IsChecked field text r c = elim (Bool-cases (text_of field r == text)) [
  | inl same ↦
      subst (λ t. IsChecked (write field t r)) ((==_iff (text_of field r) text).0 same)
        (subst IsChecked (sym (write_same field r)) c)
  | inr other ↦
      (write-IsValidated field text r c
        (λ h. absurd (cc (other, (==_iff (text_of field r) text).1 h)))).0
]

-- The error of a field that is marked again, and of one that is marked for a new answer.
marked_again : (e v i : Bool) → e ≡ (v || i) → (i || e) ≡ (v || i)
marked_again e v i h = ground (arith, h)

marked_anew : (a e v i : Bool) → e ≡ (v || i) → i ≡ false → (a || e) ≡ (v || a)
marked_anew a e v i h none_before = ground (arith, h, none_before)

receive_names-IsChecked :
    (names : List String) (r : Registration)
    → r.user_names ≡ []
    → IsChecked r
    → IsChecked (receive_names names r)
unfolding receive_names
receive_names-IsChecked names r awaited c =
    let none_before = ap (λ known. includes known r.name.text) awaited in
    rw (validate_duplicates_lem (record r { user_names = names }), receive_names)
      (record {
        unmasked = c.unmasked;
        name_checked = marked_anew _ _ _ _ c.name_checked none_before;
        email_checked = marked_again _ _ _ c.email_checked;
        password_checked = c.password_checked;
      })

receive_emails-IsChecked :
    (emails : List String) (r : Registration)
    → r.user_emails ≡ []
    → IsChecked r
    → IsChecked (receive_emails emails r)
unfolding receive_emails
receive_emails-IsChecked emails r awaited c =
    let none_before = ap (λ known. includes known r.email.text) awaited in
    rw (validate_duplicates_lem (record r { user_emails = emails }), receive_emails)
      (record {
        unmasked = c.unmasked;
        name_checked = marked_again _ _ _ c.name_checked;
        email_checked = marked_anew _ _ _ _ c.email_checked none_before;
        password_checked = c.password_checked;
      })

write-IsAwaited :
    (field : Field) (text : String) (named mailed : Bool) (r : Registration)
    → IsAwaited named mailed r
    → IsAwaited named mailed (write field text r)
write-IsAwaited field text named mailed r w =
    let (names, emails) = write-user_names field text r in
    record {
      checked = write-IsChecked field text r w.checked;
      names_awaited = λ h. names ∙ w.names_awaited h;
      emails_awaited = λ h. emails ∙ w.emails_awaited h;
    }

run-IsChecked :
    (events : List Event) (named mailed : Bool) (r : Registration)
    → AnsweredOnce named mailed events
    → IsAwaited named mailed r
    → IsChecked (run events r)
unfolding run step receive_names receive_emails validate_duplicates
run-IsChecked [] named mailed r once w = w.checked
run-IsChecked (types field text ∷ events) named mailed r once w =
    run-IsChecked events named mailed (write field text r) once
      (write-IsAwaited field text named mailed r w)
run-IsChecked (names_received names ∷ events) named mailed r (first, once) w =
    run-IsChecked events true mailed (receive_names names r) once (record {
      checked = receive_names-IsChecked names r (w.names_awaited first) w.checked;
      names_awaited = λ h. absurd (cc);
      emails_awaited = w.emails_awaited;
    })
run-IsChecked (emails_received emails ∷ events) named mailed r (first, once) w =
    run-IsChecked events named true (receive_emails emails r) once (record {
      checked = receive_emails-IsChecked emails r (w.emails_awaited first) w.checked;
      names_awaited = w.names_awaited;
      emails_awaited = λ h. absurd (cc);
    })

-- Into a new form any texts are typed, while the names and the addresses of the users are answered
-- at any time, once each at most. A text that differs from the one before, typed after that, leaves
-- errors that are those of the texts, and the button disabled exactly if a field is empty, the name,
-- the password or the address does not match its expression, or the name or the address is taken:
-- the expression of the full name is not asked for.
pub write-run :
    (user_name password full_name email : String → Bool) (events : List Event)
    → AnsweredOnce false false events
    → (field : Field) (text : String)
    → text_of field (run events (registration_page user_name password full_name email)) ≢ text
    → IsValidated
        (write field text (run events (registration_page user_name password full_name email)))
unfolding registration_page text_field
write-run user_name password full_name email events once field text changed =
    let form = registration_page user_name password full_name email in
    write-IsValidated field text (run events form)
      (run-IsChecked events false false form once (record {
        checked = record {
          unmasked = (refl, refl, refl, refl);
          name_checked = refl;
          email_checked = refl;
          password_checked = refl;
        };
        names_awaited = λ h. refl;
        emails_awaited = λ h. refl;
      }))
      changed
