-- ===== src/Auth/Verification.antt =====
-- backend/src/tradeschool/auth/email_verification.py: the address of an account, and the link that
-- verifies it. What raises has written nothing.
use tradeschool.Base.{
  ℕ, String, Bool, true, false, not, ◌&&◌, ◌||◌, Option, none, some, ◌==◌, find, is_some, str_eq,
  opt_str_eq, if◌then◌else◌, Result, ok, err, Failure, app, ◌>>=◌, ◌>>◌, raise_if, or_raise,
}
use tradeschool.Auth.Models.{
  User, email_verification, EmailToken, Services, AuthDb, get_user, put_user, send_mail,
}
use tradeschool.Auth.Tokens.{issued_recently, issue, find_active, mark_used}

-- `VERIFY_TTL`: 48 hours.
abbrev pub verify_ttl : ℕ
verify_ttl = 172800

abbrev pub verify_invalid : Failure
verify_invalid = app "VERIFY_TOKEN_INVALID" 400

abbrev pub mail_is : (String → String) → String → Option String → Bool
mail_is lower_of address none = false
mail_is lower_of address (some email) = str_eq (lower_of email) address

abbrev pub same_user : Option ℕ → User → Bool
same_user none u = false
same_user (some user_id) u = u.id == user_id

-- A verified account of that address, other than the user's own.
abbrev pub holds : Services → String → Option ℕ → User → Bool
holds services email user_id u =
    mail_is services.db_lower (services.lower email) u.email
    && u.is_verified
    && not (same_user user_id u)

unfoldable pub ensure_available : Services → String → Option ℕ → AuthDb → Result (Unit {0})
ensure_available services email user_id db =
    raise_if (is_some (find (holds services email user_id) db.users)) (app "EMAIL_ALREADY_USED" 409)

-- `send_link`, with what the random sources draw.
unfoldable pub send_link : Services → User → (now id : ℕ) → String → AuthDb → AuthDb
send_link services user now id token db = elim user.email [
  | none ↦ db
  | some email ↦
      if not services.mail_enabled
        || user.is_verified
        || issued_recently db user.id email_verification now
      then db
      else send_mail email email_verification token
          (issue services user.id email_verification email verify_ttl now id token db)
]

abbrev pub with_email : Option String → User → User
with_email email u = record u { email = email; is_verified = false }

abbrev pub check_free : Services → Option String → ℕ → AuthDb → Result (Unit {0})
check_free services none user_id db = ok tt
check_free services (some email) user_id db = ensure_available services email (some user_id) db

unfoldable pub change_email :
    Services → User → Option String → (now id : ℕ) → String → AuthDb → Result (AuthDb × User)
change_email services user email now id token db =
    if opt_str_eq email user.email then ok (db, user) else do
      check_free services email user.id db
      let user' = with_email email user
      let db' = record db { users = put_user user.id (with_email email) db.users }
      ok (send_link services user' now id token db', user')

abbrev pub owner : Failure → EmailToken → Option User → Result User
owner failure row none = err failure
owner failure row (some user) =
    if not user.is_active || not (opt_str_eq user.email (some row.email))
    then err failure
    else ok user

abbrev pub verified : User → User
verified u = record u { is_verified = true }

unfoldable pub confirm : Services → String → ℕ → AuthDb → Result AuthDb
confirm services token now db = do
  row ← or_raise (find_active services token email_verification now db) verify_invalid
  user ← owner verify_invalid row (get_user db row.user_id)
  ensure_available services row.email (some user.id) db
  ok (mark_used row now (record db { users = put_user user.id verified db.users }))
