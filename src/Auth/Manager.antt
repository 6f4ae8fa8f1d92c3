-- ===== src/Auth/Manager.antt =====
-- backend/src/tradeschool/auth/manager.py and schemas.py: the policy on names and passwords, and the
-- accounts by name. Argon2 and the case of letters are parameters.
use tradeschool.Base.{
  ℕ, String, Bool, true, false, not, ◌&&◌, ◌||◌, Option, none, [], ◌∷◌, ◌++◌, ◌==◌, ltb, leb, find,
  all, is_some, str_eq, Result, ok, Failure, value_error, other, ◌>>=◌, ◌>>◌, raise_if, points,
  text_length,
}
use tradeschool.Auth.Models.{User, Services, AuthDb, put_user}

-- `MIN_PASSWORD_LENGTH`
abbrev pub min_password_length : ℕ
min_password_length = 8

abbrev pub invalid_password : Failure
invalid_password = other "InvalidPasswordException"

unfoldable pub validate_password : String → Result (Unit {0})
validate_password password =
    raise_if (ltb (text_length password) min_password_length) invalid_password

-- `USERNAME_RE`, one character: a letter in lower case, a digit, an underscore or a hyphen.
abbrev pub name_character : ℕ → Bool
name_character c = leb b'a' c && leb c b'z' || leb b'0' c && leb c b'9' || c == b'_' || c == b'-'

unfoldable pub normalize_username : Services → String → Result String
normalize_username services raw = do
  let value = services.lower (services.strip raw)
  raise_if (ltb (text_length value) 3 || ltb 32 (text_length value)) value_error
  raise_if (not (all name_character (points value))) value_error
  ok value

-- `get_by_username`: the database compares in lower case.
abbrev pub goes_by : Services → String → User → Bool
goes_by services username u = str_eq (services.db_lower u.username) (services.db_lower username)

abbrev pub get_by_username : Services → String → AuthDb → Option User
get_by_username services username db = find (goes_by services username) db.users

abbrev pub new_user : Services → String → String → String → (now id : ℕ) → User
new_user services username password locale now id = record {
  id = id;
  username = username;
  hashed_password = services.hash_password password;
  is_active = true;
  is_superuser = false;
  email = none;
  is_verified = false;
  locale = locale;
  created_at = now;
}

-- `register`: `id` is the uuid of the new row.
unfoldable pub register :
    Services → String → String → String → (now id : ℕ) → AuthDb → Result (AuthDb × User)
register services username password locale now id db = do
  validate_password password
  uname ← normalize_username services username
  raise_if (is_some (get_by_username services uname db)) (other "UserAlreadyExists")
  let user = new_user services uname password locale now id
  ok (record db { users = db.users ++ (user ∷ []) }, user)

unfoldable pub set_locale : User → String → AuthDb → AuthDb
set_locale user locale db = record db {
  users = put_user user.id (λ (u : User). record u { locale = locale }) db.users;
}

abbrev pub with_password : Services → String → User → User
with_password services password u = record u { hashed_password = services.hash_password password }

unfoldable pub set_password : Services → User → String → AuthDb → Result AuthDb
set_password services user password db = do
  validate_password password
  ok (record db { users = put_user user.id (with_password services password) db.users })
