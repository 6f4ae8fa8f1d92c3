-- ===== src/Auth/Models.antt =====
-- backend/src/tradeschool/auth/models.py: the tables of users, session tokens and mailed links, and
-- what the mailer was given to send. A uuid is a number, a time a number of seconds.
use tradeschool.Base.{
  ℕ, String, Bool, true, false, Option, List, [], ◌∷◌, ◌++◌, map, ◌==◌, find, if◌then◌else◌,
}

pub record User : Type 0 where
  pub id : ℕ
  pub username : String
  pub hashed_password : String
  pub is_active : Bool
  pub is_superuser : Bool
  pub email : Option String
  pub is_verified : Bool
  pub locale : String
  pub created_at : ℕ

pub record AccessToken : Type 0 where
  pub token : String
  pub user_id : ℕ
  pub created_at : ℕ

pub data TokenPurpose : Type 0 where
  password_reset email_verification : TokenPurpose

abbrev pub purpose_eq : TokenPurpose → TokenPurpose → Bool
purpose_eq password_reset password_reset = true
purpose_eq email_verification email_verification = true
purpose_eq _ _ = false

pub record EmailToken : Type 0 where
  pub id : ℕ
  pub user_id : ℕ
  pub purpose : TokenPurpose
  pub email : String
  pub token_hash : String
  pub expires_at : ℕ
  pub used_at : Option ℕ
  pub created_at : ℕ

-- A message that was handed to the mailer: where to, and the link's token.
pub record Mail : Type 0 where
  pub to_address : String
  pub purpose : TokenPurpose
  pub token : String

pub record AuthDb : Type 0 where
  pub users : List User
  pub access_tokens : List AccessToken
  pub email_tokens : List EmailToken
  pub outbox : List Mail

-- What the code takes from libraries: the texts in lower case by Python and by the database, `strip`,
-- the SHA-256 of a token, the Argon2 hash of a password, and whether the mailer is configured.
pub record Services : Type 0 where
  pub lower : String → String
  pub db_lower : String → String
  pub strip : String → String
  pub hash_token : String → String
  pub hash_password : String → String
  pub mail_enabled : Bool

-- `mailer.send(address, …)` with the link of that token.
abbrev pub send_mail : String → TokenPurpose → String → AuthDb → AuthDb
send_mail address purpose token db = record db {
  outbox = db.outbox ++ (record { to_address = address; purpose = purpose; token = token } ∷ []);
}

-- `session.get(User, user_id)`
abbrev pub get_user : AuthDb → ℕ → Option User
get_user db user_id = find (λ (u : User). u.id == user_id) db.users

-- The row of that id, changed.
abbrev pub put_user : ℕ → (User → User) → List User → List User
put_user user_id change users = map (λ (u : User). if u.id == user_id then change u else u) users
