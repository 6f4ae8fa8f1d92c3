-- ===== src/Auth/Operations.antt =====
-- Every operation of backend/src/tradeschool/auth keeps the tables sound.
use tradeschool.Base.{
  ℕ, String, ◌≡◌, refl, sym, subst, Bool, not, ◌||◌, ◌⊎◌, Option, some, arith, Bool-cases,
  Option-cases, inl, inr, ◌==◌, if◌then◌else◌, ok, opt_str_eq, Result-cases,
}
use tradeschool.Auth.Models.{
  User, TokenPurpose, email_verification, EmailToken, Services, AuthDb, put_user, send_mail,
}
use tradeschool.Auth.Tokens.{issued_to, issue, mark_used, issued_recently}
use tradeschool.Auth.Verification.{with_email, check_free, send_link, change_email, verify_ttl}
use tradeschool.Auth.Invariant.{IsSound, put_user-IsSound, issue-IsSound}
use tradeschool.Base.Counts.{count_if-map_eq}

module _ (services : Services) where
  pub mark_used-IsSound :
      (row : EmailToken) (now : ℕ) (db : AuthDb)
      → IsSound services db
      → IsSound services (mark_used row now db)
  unfolding mark_used
  mark_used-IsSound row now db sound = record {
    ids = sound.ids;
    names = sound.names;
    addresses = sound.addresses;
    links = λ i p. omega (
      arith,
      sound.links i p,
      count_if-map_eq (issued_to i p)
          (λ (r : EmailToken). if r.id == row.id then record r { used_at = some now } else r)
          db.email_tokens (λ r. ground arith),
    );
  }

  pub mailed-IsSound :
      (address : String) (user_id ttl now id : ℕ) (p : TokenPurpose) (token : String) (db : AuthDb)
      → IsSound services db
      → IsSound services
          (send_mail address p token (issue services user_id p address ttl now id token db))
  mailed-IsSound address user_id ttl now id p token db sound =
      let after = issue-IsSound services db sound user_id p address ttl now id token in
      record {
        ids = after.ids;
        names = after.names;
        addresses = after.addresses;
        links = after.links;
      }

  send_link_cases :
      (user : User) (now id : ℕ) (token : String) (db : AuthDb)
      → (send_link services user now id token db ≡ db)
        ⊎ ((email : String) × (send_link services user now id token db
              ≡ send_mail email email_verification token
                  (issue services user.id email_verification email verify_ttl now id token db)))
  unfolding send_link
  send_link_cases user now id token db = elim (Option-cases user.email) [
    | inl e ↦ inl (ground (arith, e))
    | inr (email, e) ↦ elim (Bool-cases (skips email)) [
      | inl t ↦ inl (ground (arith, e, t))
      | inr t ↦ inr (email, ground (arith, e, t))
    ]
  ]
    where
      skips : String → Bool
      skips email =
          not services.mail_enabled
          || user.is_verified
          || issued_recently db user.id email_verification now

  pub send_link-IsSound :
      (user : User) (now id : ℕ) (token : String) (db : AuthDb)
      → IsSound services db
      → IsSound services (send_link services user now id token db)
  send_link-IsSound user now id token db sound = elim (send_link_cases user now id token db) [
    | inl e ↦ subst (IsSound services) (sym e) sound
    | inr (email, e) ↦
        subst (IsSound services) (sym e)
          (mailed-IsSound email user.id verify_ttl now id email_verification token db sound)
  ]

  with_email-IsSound :
      (user_id : ℕ) (email : Option String) (db : AuthDb)
      → IsSound services db
      → IsSound services (record db { users = put_user user_id (with_email email) db.users })
  with_email-IsSound user_id email db sound =
      put_user-IsSound services db sound user_id (with_email email) (λ u. refl) (λ u. refl)
        (λ u address h. ground (arith, h))

  pub change_email-IsSound :
      (user user' : User) (email : Option String) (now id : ℕ) (token : String) (db db' : AuthDb)
      → change_email services user email now id token db ≡ ok (db', user')
      → IsSound services db
      → IsSound services db'
  unfolding change_email
  change_email-IsSound user user' email now id token db db' h sound =
      elim (Bool-cases (opt_str_eq email user.email)) [
        | inl e ↦ subst (IsSound services) (ground (arith, e, h)) sound
        | inr e ↦ elim (Result-cases (check_free services email user.id db)) [
          | inl (_, free) ↦ subst (IsSound services) (ground (arith, e, free, h)) (
              send_link-IsSound (with_email email user) now id token
                (record db { users = put_user user.id (with_email email) db.users })
                (with_email-IsSound user.id email db sound))
          | inr (f, free) ↦ absurd (ground (arith, e, free, h))
        ]
      ]
