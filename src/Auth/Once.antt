-- ===== src/Auth/Once.antt =====
-- A reset link of backend/src/tradeschool/auth works once, and its use ends every session; a second request
-- within the cool-down sends nothing.
use tradeschool.Base.{
  ℕ, ◌+◌, ◌<◌, String, ◌≡◌, ◌≢◌, refl, ap, ◌∙◌, true, not, none, some, List, [], ◌∷◌, find,
  find-map_ne, select, select-append, arith, Option-cases, inl, inr, ◌==◌, if◌then◌else◌, ok, err,
  Result-cases,
}
use tradeschool.Auth.Models.{
  User, AccessToken, TokenPurpose, password_reset, EmailToken, Services, AuthDb, get_user, put_user,
  send_mail,
}
use tradeschool.Auth.Tokens.{
  issued_to, issue, issued_recently, hashed_as, find_active, mark_used, resend_cooldown,
}
use tradeschool.Auth.Verification.{owner}
use tradeschool.Auth.Reset.{reset_invalid, target, session_of, confirm}
use tradeschool.Auth.Manager.{with_password}
use tradeschool.Auth.Invariant.{purpose_eq_iff}
use tradeschool.Auth.Requests.{reset_steps}

module _ (services : Services) where
  -- A token that was marked as used is never found active again.
  find_active-mark_used :
      (token : String) (p : TokenPurpose) (now now' later_on : ℕ) (db changed : AuthDb)
      (row : EmailToken)
      → find_active services token p now db ≡ some row
      → changed.email_tokens ≡ db.email_tokens
      → find_active services token p later_on (mark_used row now' changed) ≡ none
  unfolding find_active mark_used
  find_active-mark_used token p now now' later_on db changed row h same =
      let mark =
        λ (r : EmailToken). if r.id == row.id then record r { used_at = some now' } else r in
      let test = hashed_as (services.hash_token token) p in
      elim (Option-cases (find test db.email_tokens)) [
        | inl e ↦ absurd (ground (arith, e, h))
        | inr (r, e) ↦
            ground (arith, same, e, h, find-map_ne test mark db.email_tokens (λ x. ground arith))
      ]

  target-ok :
      (token : String) (now : ℕ) (db : AuthDb) (row : EmailToken) (user : User)
      → target services token now db ≡ ok (row, user)
      → find_active services token password_reset now db ≡ some row
  unfolding target
  target-ok token now db row user h =
      elim (Option-cases (find_active services token password_reset now db)) [
        | inl e ↦ absurd (ground (arith, e, h))
        | inr (r, e) ↦ elim (Result-cases (owner reset_invalid r (get_user db r.user_id))) [
          | inr (f, o) ↦ absurd (ground (arith, e, o, h))
          | inl (u, o) ↦ ground (arith, e, o, h)
        ]
      ]

  find_active-tokens :
      (token : String) (p : TokenPurpose) (now : ℕ) (db changed : AuthDb)
      → changed.email_tokens ≡ db.email_tokens
      → find_active services token p now changed ≡ find_active services token p now db
  unfolding find_active
  find_active-tokens token p now db changed same = rw (same, find_active) refl

  no_target :
      (token password : String) (now : ℕ) (db : AuthDb)
      → find_active services token password_reset now db ≡ none
      → confirm services token password now db ≡ err reset_invalid
  unfolding confirm
  no_target token password now db h = ground (arith, h)

  -- The tables that a reset by a link left refuse the same link as not valid, at any time and with any
  -- password.
  pub reset_once :
      (token password : String) (now : ℕ) (db db' : AuthDb)
      → confirm services token password now db ≡ ok db'
      → (next_password : String) (later_on : ℕ)
      → confirm services token next_password later_on db' ≡ err reset_invalid
  reset_once token password now db db' h next_password later_on =
      let (row, user, hit, e) = reset_steps services token password now db db' h in
      let changed = record db {
        users = put_user user.id (with_password services password) db.users;
      } in
      no_target token next_password later_on db' (
        find_active-tokens token password_reset later_on (mark_used row now changed) db'
          (ap (λ (z : AuthDb). z.email_tokens) e)
        ∙ find_active-mark_used token password_reset now now later_on db changed row
            (target-ok token now db row user hit) refl)

  -- A reset that succeeds sets the password of one account and ends all its sessions; every other
  -- account's sessions, and the rest of each account, stay as they were.
  pub reset_effect :
      (token password : String) (now : ℕ) (db db' : AuthDb)
      → confirm services token password now db ≡ ok db'
      → (row : EmailToken) × (user : User) × (target services token now db ≡ ok (row, user))
        × (db'.users ≡ put_user user.id (with_password services password) db.users)
        × (select (session_of user.id) db'.access_tokens ≡ [])
        × ((i : ℕ)
            → i ≢ user.id
            → select (session_of i) db'.access_tokens ≡ select (session_of i) db.access_tokens)
        × (db'.outbox ≡ db.outbox)
  unfolding mark_used
  reset_effect token password now db db' h =
      let (row, user, hit, e) = reset_steps services token password now db db' h in
      (
        row,
        user,
        hit,
        ap (λ (z : AuthDb). z.users) e,
        ap (λ (z : AuthDb). select (session_of user.id) z.access_tokens) e
            ∙ ended user.id db.access_tokens,
        (λ i n.
            ap (λ (z : AuthDb). select (session_of i) z.access_tokens) e
            ∙ others user.id i n db.access_tokens),
        ap (λ (z : AuthDb). z.outbox) e,
      )
    where
      ended :
          (i : ℕ) (rows : List AccessToken)
          → select (session_of i) (select (λ row. not (session_of i row)) rows) ≡ []
      ended i [] = refl
      ended i (row ∷ rows) = ground (arith, ended i rows)

      others :
          (i j : ℕ)
          → j ≢ i
          → (rows : List AccessToken)
          → select (session_of j) (select (λ row. not (session_of i row)) rows)
            ≡ select (session_of j) rows
      others i j n [] = refl
      others i j n (row ∷ rows) = ground (arith, n, others i j n rows)

  -- Just after a link was issued the cool-down holds.
  pub issued_recently-issue :
      (i : ℕ) (p : TokenPurpose) (email : String) (ttl now id : ℕ) (token : String) (now' : ℕ)
      (db : AuthDb)
      → now' < now + resend_cooldown
      → issued_recently
          (send_mail email p token (issue services i p email ttl now id token db))
          i
          p
          now'
        ≡ true
  unfolding issued_recently issue
  issued_recently-issue i p email ttl now id token now' db h =
      let kept = select (λ row. not (issued_to i p row)) db.email_tokens in
      let new : EmailToken = record {
        id = id;
        user_id = i;
        purpose = p;
        email = email;
        token_hash = services.hash_token token;
        expires_at = now + ttl;
        used_at = none;
        created_at = now;
      } in
      ground (
        arith,
        h,
        select-append (issued_to i p) kept (new ∷ []),
        dropped db.email_tokens,
        (purpose_eq_iff p p).1 refl,
      )
    where
      dropped :
          (rows : List EmailToken)
          → select (issued_to i p) (select (λ row. not (issued_to i p row)) rows) ≡ []
      dropped [] = refl
      dropped (row ∷ rows) = ground (arith, dropped rows)
