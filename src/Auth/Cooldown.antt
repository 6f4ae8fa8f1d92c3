-- ===== src/Auth/Cooldown.antt =====
-- Mail to one inbox is bounded (backend/src/tradeschool/auth/password_reset.py): a second request within
-- the cool-down sends nothing.
use tradeschool.Base.{
  ℕ, ◌+◌, ◌<◌, String, ◌≡◌, ◌≢◌, refl, sym, ap, subst, true, ◌⊎◌, some, find, arith, Bool-cases,
  Option-cases, inl, inr,
}
use tradeschool.Auth.Models.{User, password_reset, Services, AuthDb, send_mail}
use tradeschool.Auth.Tokens.{issue, issued_recently, resend_cooldown}
use tradeschool.Auth.Reset.{reset_ttl, reachable, mail_reset, request_for_email}
use tradeschool.Auth.Once.{issued_recently-issue}

module _ (services : Services) where
  -- A request leaves the tables alone, or issues and mails one link to the account of the address.
  pub request_for_email_cases :
      (email : String) (now id : ℕ) (token : String) (db : AuthDb)
      → (request_for_email services email now id token db ≡ db)
        ⊎ ((user : User) × (address : String) × (find (reachable services email) db.users
              ≡ some user)
            × (user.email ≡ some address)
            × (request_for_email services email now id token db
                ≡ send_mail address password_reset token
                    (issue services user.id password_reset address reset_ttl now id token db)))
  unfolding request_for_email mail_reset
  request_for_email_cases email now id token db =
      elim (Option-cases (find (reachable services email) db.users)) [
        | inl e ↦ inl (ground (arith, e))
        | inr (user, e) ↦ elim (Option-cases user.email) [
          | inl n ↦ inl (ground (arith, e, n))
          | inr (address, n) ↦ elim (Bool-cases (issued_recently db user.id password_reset now)) [
            | inl t ↦ inl (ground (arith, e, n, t))
            | inr t ↦ inr (user, address, e, n, ground (arith, e, n, t))
          ]
        ]
      ]

  skipped :
      (email : String) (now id : ℕ) (token : String) (db : AuthDb) (user : User) (address : String)
      → find (reachable services email) db.users ≡ some user
      → user.email ≡ some address
      → issued_recently db user.id password_reset now ≡ true
      → request_for_email services email now id token db ≡ db
  unfolding request_for_email mail_reset
  skipped email now id token db user address e n t = ground (arith, e, n, t)

  issue-users :
      (user_id ttl now id : ℕ) (address token : String) (db : AuthDb)
      → (send_mail address password_reset token
          (issue services user_id password_reset address ttl now id token db)).users
        ≡ db.users
  unfolding issue
  issue-users user_id ttl now id address token db = refl

  -- After a request that mailed a reset link, every request for the same address within the next
  -- 60 seconds changes nothing and mails nothing.
  pub request_within_cooldown :
      (email : String) (now id : ℕ) (token : String) (db : AuthDb)
      → (request_for_email services email now id token db).outbox ≢ db.outbox
      → (now' id' : ℕ) (token' : String) → now' < now + resend_cooldown
      → let db' = request_for_email services email now id token db in
        request_for_email services email now' id' token' db' ≡ db'
  request_within_cooldown email now id token db mailed now' id' token' soon =
      elim (request_for_email_cases email now id token db) [
        | inl e ↦ absurd (mailed (ap (λ (z : AuthDb). z.outbox) e))
        | inr (user, address, found, n, e) ↦
            subst (λ z. request_for_email services email now' id' token' z ≡ z) (sym e)
              (skipped email now' id' token'
                (send_mail address password_reset token
                  (issue services user.id password_reset address reset_ttl now id token db))
                user address
                (subst (λ us. find (reachable services email) us ≡ some user)
                  (sym (issue-users user.id reset_ttl now id address token db)) found)
                n
                (issued_recently-issue services user.id password_reset address reset_ttl now id
                  token now' db soon))
      ]
