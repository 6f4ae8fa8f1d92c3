-- ===== src/Auth/Reset.antt =====
-- backend/src/tradeschool/auth/password_reset.py: a new password by a mailed link.
use tradeschool.Base.{
  ℕ, String, Bool, not, ◌&&◌, none, some, ◌==◌, find, select, if◌then◌else◌, Result, ok, Failure,
  app, ◌>>=◌, or_raise,
}
use tradeschool.Auth.Models.{
  User, AccessToken, password_reset, EmailToken, Services, AuthDb, get_user, send_mail,
}
use tradeschool.Auth.Tokens.{issued_recently, issue, find_active, mark_used}
use tradeschool.Auth.Verification.{mail_is, owner}
use tradeschool.Auth.Manager.{set_password}

-- `RESET_TTL`: 60 minutes.
abbrev pub reset_ttl : ℕ
reset_ttl = 3600

abbrev pub reset_invalid : Failure
reset_invalid = app "RESET_TOKEN_INVALID" 400

abbrev pub reachable : Services → String → User → Bool
reachable services email u = mail_is services.db_lower email u.email && u.is_verified && u.is_active

-- The link is issued and mailed, unless one went out a moment ago.
unfoldable pub mail_reset : Services → User → (now id : ℕ) → String → AuthDb → AuthDb
mail_reset services user now id token db = elim user.email [
  | none ↦ db
  | some address ↦
      if issued_recently db user.id password_reset now
      then db
      else send_mail address password_reset token
          (issue services user.id password_reset address reset_ttl now id token db)
]

unfoldable pub request_for_email : Services → String → (now id : ℕ) → String → AuthDb → AuthDb
unfolding mail_reset
request_for_email services email now id token db = elim (find (reachable services email) db.users) [
  | none ↦ db
  | some user ↦ mail_reset services user now id token db
]

unfoldable pub target : Services → String → ℕ → AuthDb → Result (EmailToken × User)
target services token now db = do
  row ← or_raise (find_active services token password_reset now db) reset_invalid
  user ← owner reset_invalid row (get_user db row.user_id)
  ok (row, user)

abbrev pub session_of : ℕ → AccessToken → Bool
session_of user_id row = row.user_id == user_id

abbrev pub end_sessions : ℕ → AuthDb → AuthDb
end_sessions user_id db = record db {
  access_tokens = select (λ row. not (session_of user_id row)) db.access_tokens;
}

unfoldable pub confirm : Services → String → String → ℕ → AuthDb → Result AuthDb
unfolding target
confirm services token new_password now db = do
  (row, user) ← target services token now db
  changed ← set_password services user new_password db
  ok (end_sessions user.id (mark_used row now changed))
