-- ===== src/Auth/Works.antt =====
-- A reset link that was mailed works until it expires: backend/src/tradeschool/auth/password_reset.py, from the
-- request to the new password.
use tradeschool.Base.{
  ℕ, ◌+◌, ◌<◌, String, ◌≡◌, ◌≢◌, refl, sym, ap, subst, Bool, true, not, none, some, List, [], ◌∷◌,
  find, find_holds, find-map_ne, ◌∙◌, ◌==◌, if◌then◌else◌, select, arith, inl, inr, str_eq_self, ok,
  opt_str_eq_iff,
}
use tradeschool.Base.Counts.{find-append, find_marked}
use tradeschool.Auth.Models.{
  User, EmailToken, password_reset, Services, AuthDb, get_user, put_user, send_mail,
}
use tradeschool.Auth.Tokens.{issued_to, issue, hashed_as, find_active, mark_used}
use tradeschool.Auth.Manager.{validate_password, with_password, set_password}
use tradeschool.Auth.Reset.{reset_ttl, reachable, request_for_email, target, end_sessions, confirm}
use tradeschool.Auth.Invariant.{has_id, IsSound}
use tradeschool.Auth.Cooldown.{request_for_email_cases}

module _ (services : Services) where
  abbrev link_row : User → String → (now id : ℕ) → String → EmailToken
  link_row user address now id token = record {
    id = id;
    user_id = user.id;
    purpose = password_reset;
    email = address;
    token_hash = services.hash_token token;
    expires_at = now + reset_ttl;
    used_at = none;
    created_at = now;
  }

  abbrev mailed : User → String → (now id : ℕ) → String → AuthDb → AuthDb
  mailed user address now id token db =
      send_mail address password_reset token
        (issue services user.id password_reset address reset_ttl now id token db)

  find-select-none :
      (test keep : EmailToken → Bool) (rows : List EmailToken)
      → find test rows ≡ none
      → find test (select keep rows) ≡ none
  find-select-none test keep [] h = refl
  find-select-none test keep (row ∷ rows) h = ground (arith, h, find-select-none test keep rows)

  -- The new link is found active until it expires.
  find_active-mailed :
      (user : User) (address : String) (now id : ℕ) (token : String) (db : AuthDb) (now' : ℕ)
      → find (hashed_as (services.hash_token token) password_reset) db.email_tokens ≡ none
      → now' < now + reset_ttl
      → find_active services token password_reset now' (mailed user address now id token db)
        ≡ some (link_row user address now id token)
  unfolding find_active issue
  find_active-mailed user address now id token db now' new soon =
      let test = hashed_as (services.hash_token token) password_reset in
      let keep = λ (row : EmailToken). not (issued_to user.id password_reset row) in
      ground (
        arith,
        soon,
        find-append test (select keep db.email_tokens) (link_row user address now id token ∷ []),
        find-select-none test keep db.email_tokens new,
        str_eq_self (services.hash_token token),
      )

  mailed-users :
      (user : User) (address : String) (now id : ℕ) (token : String) (db : AuthDb)
      → (mailed user address now id token db).users ≡ db.users
  unfolding issue
  mailed-users user address now id token db = refl

  target-mailed :
      (user : User) (address : String) (now id : ℕ) (token : String) (db : AuthDb) (now' : ℕ)
      → find (hashed_as (services.hash_token token) password_reset) db.email_tokens ≡ none
      → now' < now + reset_ttl
      → find (has_id user.id) db.users ≡ some user
      → user.is_active ≡ true
      → user.email ≡ some address
      → target services token now' (mailed user address now id token db)
        ≡ ok (link_row user address now id token, user)
  unfolding target
  target-mailed user address now id token db now' new soon single active own = ground (
    arith,
    find_active-mailed user address now id token db now' new soon,
    single,
    active,
    own,
    (opt_str_eq_iff (some address) (some address)).1 refl,
    ap (λ us. find (has_id user.id) us) (mailed-users user address now id token db),
  )

  set_password-ok :
      (user : User) (password : String) (db : AuthDb)
      → validate_password password ≡ ok tt
      → set_password services user password db
        ≡ ok (record db { users = put_user user.id (with_password services password) db.users })
  unfolding set_password
  set_password-ok user password db valid = ground (arith, valid)

  changed-account :
      (user : User) (password : String) (users : List User)
      → find (has_id user.id) users ≡ some user
      → find (has_id user.id) (put_user user.id (with_password services password) users)
        ≡ some (with_password services password user)
  changed-account user password users single =
      find-map_ne (has_id user.id)
        (λ (u : User). if u.id == user.id then with_password services password u else u) users
        (λ u. ground arith)
      ∙ ground (arith, single)

  -- In sound tables, a link that a request mailed, and whose token is like no stored one, resets the
  -- password within the next hour: for every password that the policy accepts the confirmation succeeds, and the account that
  -- the address names then has the hash of that password.
  pub reset_works :
      (email : String) (now id : ℕ) (token : String) (db : AuthDb)
      → IsSound services db
      → find (hashed_as (services.hash_token token) password_reset) db.email_tokens ≡ none
      → (request_for_email services email now id token db).outbox ≢ db.outbox
      → (now' : ℕ) (password : String) → now' < now + reset_ttl
      → validate_password password ≡ ok tt
      → (db' : AuthDb) × (user : User) × (user' : User) × (confirm services token password now'
            (request_for_email services email now id token db)
          ≡ ok db')
        × (reachable services email user ≡ true)
        × (get_user db user.id ≡ some user)
        × (get_user db' user.id ≡ some user')
        × (user'.hashed_password ≡ services.hash_password password)
  unfolding confirm mark_used
  reset_works email now id token db sound new sent now' password soon valid =
      elim (request_for_email_cases services email now id token db) [
        | inl e ↦ absurd (sent (ap (λ (z : AuthDb). z.outbox) e))
        | inr (user, address, found, own, e) ↦
            let active : user.is_active ≡ true =
              ground (arith, find_holds (reachable services email) db.users user found, own) in
            let single =
              find_marked (reachable services email) (has_id user.id) db.users user found
                (ground arith) (sound.ids user.id) in
            let before = mailed user address now id token db in
            let row = link_row user address now id token in
            let changed = record before {
              users = put_user user.id (with_password services password) before.users;
            } in
            (
              end_sessions user.id (mark_used row now' changed),
              user,
              with_password services password user,
              subst
                  (λ z.
                    confirm services token password now' z
                    ≡ ok (end_sessions user.id (mark_used row now' changed)))
                  (sym e)
                  (ground (
                    arith,
                    target-mailed user address now id token db now' new soon single active own,
                    set_password-ok user password before valid,
                  )),
              find_holds (reachable services email) db.users user found,
              single,
              ap
                    (λ us.
                      find (has_id user.id) (put_user user.id (with_password services password) us))
                    (mailed-users user address now id token db)
                  ∙ changed-account user password db.users single,
              refl,
            )
      ]
