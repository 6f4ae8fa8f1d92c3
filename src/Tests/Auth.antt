-- ===== src/Tests/Auth.antt =====
-- An account with a verified address asks for a new password.
use tradeschool.Base.{
  ℕ, ◌≡◌, ◌≢◌, refl, true, false, none, some, [], ◌∷◌, Result, ok, err, find, str_eq, arith,
  text_length, select,
}
use tradeschool.Auth.Models.{
  get_user, User, TokenPurpose, EmailToken, password_reset, Services, AuthDb, put_user,
}
use tradeschool.Auth.Tokens.{issue, issued_recently, find_active, mark_used, hashed_as}
use tradeschool.Auth.Verification
use tradeschool.Auth.Verification.{change_email, send_link, ensure_available, verify_ttl}
use tradeschool.Auth.Manager.{
  register, normalize_username, validate_password, set_password, with_password,
}
use tradeschool.Auth.Reset.{
  reachable, request_for_email, mail_reset, target, confirm, reset_invalid, session_of,
}
use tradeschool.Auth.Invariant.{IsSound}
use tradeschool.Auth.Steps.{
  Reach, empty, after, registered, email_changed, email_confirmed, Reach-IsSound,
}
use tradeschool.Auth.Once.{reset_once, reset_effect}
use tradeschool.Auth.Cooldown.{request_within_cooldown}
use tradeschool.Auth.Works.{reset_works}

-- Texts in ASCII, in lower case; the hash and the password hash are the texts themselves.
abbrev services : Services
services = record {
  lower = λ s. s;
  db_lower = λ s. s;
  strip = λ s. s;
  hash_token = λ s. s;
  hash_password = λ s. s;
  mail_enabled = true;
}

abbrev blank : AuthDb
blank = record { users = []; access_tokens = []; email_tokens = []; outbox = [] }

abbrev value_of : {A : Type 0} → Result A → A → A
value_of (ok a) d = a
value_of (err e) d = d

abbrev first_user : User
first_user = record {
  id = 7;
  username = "ana";
  hashed_password = "old secret";
  is_active = true;
  is_superuser = false;
  email = none;
  is_verified = false;
  locale = "es";
  created_at = 100;
}

-- The account is made, given an address, and the address confirmed.
signed_up : Result (AuthDb × User)
unfolding register normalize_username validate_password text_length str_eq
signed_up = register services "ana" "old secret" "es" 100 7 blank

abbrev made : AuthDb × User
unfolding signed_up
made = value_of signed_up (blank, first_user)

addressed : Result (AuthDb × User)
unfolding signed_up change_email send_link ensure_available issue issued_recently
addressed = change_email services made.1 (some "ana@x.es") 200 1 "link 1" made.0

abbrev with_address : AuthDb × User
unfolding addressed
with_address = value_of addressed (blank, first_user)

confirmed : Result AuthDb
unfolding addressed Verification.confirm find_active mark_used
confirmed = Verification.confirm services "link 1" 300 with_address.0

abbrev verified_db : AuthDb
unfolding confirmed
verified_db = value_of confirmed blank

-- A link for a new password goes out, and is used.
asked : AuthDb
unfolding confirmed request_for_email mail_reset
asked = request_for_email services "ana@x.es" 400 2 "link 2" verified_db

changed : Result AuthDb
unfolding asked confirm target set_password
changed = confirm services "link 2" "new secret" 500 asked

abbrev reset_db : AuthDb
unfolding changed
reset_db = value_of changed blank

changes : confirm services "link 2" "new secret" 500 asked ≡ ok reset_db
unfolding changed
changes = refl

-- Two mails went out: the one that confirms the address, and the one for the password.
mails :
    reset_db.outbox
    ≡ record {
      to_address = "ana@x.es";
      purpose = TokenPurpose.email_verification;
      token = "link 1";
    }
      ∷ record { to_address = "ana@x.es"; purpose = password_reset; token = "link 2" }
      ∷ []
unfolding changed
mails = refl

reset_once_example : confirm services "link 2" "other secret" 510 reset_db ≡ err reset_invalid
reset_once_example =
    reset_once services "link 2" "new secret" 500 asked reset_db changes "other secret" 510

reset_effect_example :
    (row : EmailToken) × (user : User) × (target services "link 2" 500 asked ≡ ok (row, user))
    × (reset_db.users ≡ put_user user.id (with_password services "new secret") asked.users)
    × (select (session_of user.id) reset_db.access_tokens ≡ [])
    × ((i : ℕ)
        → i ≢ user.id
        → select (session_of i) reset_db.access_tokens ≡ select (session_of i) asked.access_tokens)
    × (reset_db.outbox ≡ asked.outbox)
reset_effect_example = reset_effect services "link 2" "new secret" 500 asked reset_db changes

sound_path : Reach services verified_db
unfolding confirmed
sound_path =
    after
      (after (after empty (registered "ana" "old secret" "es" 100 7 refl refl))
        (email_changed made.1 (some "ana@x.es") 200 1 "link 1" refl))
      (email_confirmed "link 1" 300 refl)

Reach-IsSound_example : IsSound services verified_db
Reach-IsSound_example = Reach-IsSound services (λ s. refl) sound_path

sent :
    (request_for_email services "ana@x.es" 400 2 "link 2" verified_db).outbox ≢ verified_db.outbox
unfolding asked
sent e = cc e

request_within_cooldown_example :
    let db' = request_for_email services "ana@x.es" 400 2 "link 2" verified_db in
    request_for_email services "ana@x.es" 459 3 "link 3" db' ≡ db'
request_within_cooldown_example =
    request_within_cooldown services "ana@x.es" 400 2 "link 2" verified_db sent 459 3 "link 3"
      (omega arith)

unused : find (hashed_as "link 2" password_reset) verified_db.email_tokens ≡ none
unfolding confirmed
unused = refl

accepted : validate_password "new secret" ≡ ok tt
unfolding validate_password text_length
accepted = refl

reset_works_example :
    (db' : AuthDb) × (user : User) × (user' : User) × (confirm services "link 2" "new secret" 3999
        (request_for_email services "ana@x.es" 400 2 "link 2" verified_db)
      ≡ ok db')
    × (reachable services "ana@x.es" user ≡ true)
    × (get_user verified_db user.id ≡ some user)
    × (get_user db' user.id ≡ some user')
    × (user'.hashed_password ≡ services.hash_password "new secret")
reset_works_example =
    reset_works services "ana@x.es" 400 2 "link 2" verified_db Reach-IsSound_example unused sent
      3999 "new secret" (omega arith) accepted
