-- ===== src/Auth/Confirmed.antt =====
-- A confirmed address (backend/src/tradeschool/auth/email_verification.py) belongs to one account only.
use tradeschool.Base.{
  ℕ, ◌≤◌, String, ◌≡◌, sym, ap, subst, ◌∙◌, true, false, Option, none, some, List, map,
  All-map_left, find, find_holds, find-none-All, count_if, arith, Bool-cases, Option-cases, inl,
  inr, ◌==◌, str_eq_cases, if◌then◌else◌, ok, Failure, Result-cases, opt_str_eq_iff,
}
use tradeschool.Auth.Models.{
  User, email_verification, EmailToken, Services, AuthDb, get_user, put_user,
}
use tradeschool.Auth.Tokens.{mark_used, find_active}
use tradeschool.Auth.Verification.{
  mail_is, holds, verified, ensure_available, confirm, owner, verify_invalid,
}
use tradeschool.Auth.Invariant.{has_id, has_name, has_address, IsSound}
use tradeschool.Auth.Operations.{mark_used-IsSound}
use tradeschool.Base.Counts.{count_if-map_eq, count_if-map_into, count_if-map_narrow, find_only}

-- Who a link belongs to: an active account that still has the address.
pub owner-ok :
    (failure : Failure) (row : EmailToken) (o : Option User) (user : User)
    → owner failure row o ≡ ok user
    → (o ≡ some user) × (user.is_active ≡ true) × (user.email ≡ some row.email)
owner-ok failure row none user h = cc
owner-ok failure row (some u) user h = ground (arith, h, opt_str_eq_iff u.email (some row.email))

abbrev verify : ℕ → User → User
verify i u = if u.id == i then verified u else u

module _ (services : Services) (agree : (s : String) → services.lower s ≡ services.db_lower s) where
  -- The steps of a confirmation that succeeds.
  pub confirm_steps :
      (token : String) (now : ℕ) (db db' : AuthDb)
      → confirm services token now db ≡ ok db'
      → (row : EmailToken) × (user : User) × (find_active services token email_verification now db
          ≡ some row)
        × (get_user db row.user_id ≡ some user)
        × (user.is_active ≡ true)
        × (user.email ≡ some row.email)
        × (find (holds services row.email (some user.id)) db.users ≡ none)
        × (db' ≡ mark_used row now (record db { users = put_user user.id verified db.users }))
  unfolding confirm ensure_available
  confirm_steps token now db db' h =
      elim (Option-cases (find_active services token email_verification now db)) [
        | inl e ↦ absurd (ground (arith, e, h))
        | inr (row, e) ↦ elim (Result-cases (owner verify_invalid row (get_user db row.user_id))) [
          | inr (f, o) ↦ absurd (ground (arith, e, o, h))
          | inl (user, o) ↦
              let (got, active, mail) =
                owner-ok verify_invalid row (get_user db row.user_id) user o in
              elim (Option-cases (find (holds services row.email (some user.id)) db.users)) [
                | inr (taken, t) ↦ absurd (ground (arith, e, o, t, h))
                | inl free ↦ (row, user, e, got, active, mail, free, ground (arith, e, o, free, h))
              ]
        ]
      ]

  verified_only :
      (users : List User) (user : User) (email address : String)
      → user.email ≡ some email
      → count_if (has_id user.id) users ≤ 1
      → find (has_id user.id) users ≡ some user
      → count_if (has_address services address) users ≤ 1
      → find (holds services email (some user.id)) users ≡ none
      → count_if (has_address services address) (map (verify user.id) users) ≤ 1
  verified_only users user email address own single found before free =
      elim (str_eq_cases (services.db_lower email) address) [
        | inl (e, t) ↦ omega (
          arith,
          single,
          count_if-map_into (has_address services address) (has_id user.id) (verify user.id) users (
              All-map_left (λ x. holds services email (some user.id) x ≡ false)
                (λ x.
                  has_address services address (verify user.id x) ≡ true → has_id user.id x ≡ true)
                users
                (λ x n h.
                  ground
                    (arith, n, h, agree email, e, ap (λ a. mail_is services.db_lower a x.email)))
                (find-none-All (holds services email (some user.id)) users free)),
        )
        | inr (n, t) ↦ omega (
          arith,
          before,
          count_if-map_narrow (has_address services address) (verify user.id) users (
              All-map_left (λ x. has_id user.id x ≡ true → x ≡ user)
                (λ x.
                  has_address services address (verify user.id x) ≡ true
                  → has_address services address x ≡ true)
                users
                (λ x only h. elim (Bool-cases (has_id user.id x)) [
                  | inl i ↦
                      absurd (ground (arith, i, h, t, ap (λ (u : User). u.email) (only i) ∙ own))
                  | inr i ↦ ground (arith, i, h)
                ])
                (find_only (has_id user.id) users user single found)),
        )
      ]

  pub confirm-IsSound :
      (token : String) (now : ℕ) (db db' : AuthDb)
      → confirm services token now db ≡ ok db'
      → IsSound services db
      → IsSound services db'
  confirm-IsSound token now db db' h sound =
      let (row, user, _, got, _, mail, free, e) = confirm_steps token now db db' h in
      let same = find_holds (λ (u : User). u.id == row.user_id) db.users user got in
      let got' : find (has_id user.id) db.users ≡ some user =
        subst (λ i. find (has_id i) db.users ≡ some user) (ground (arith, same)) got in
      subst (IsSound services) (sym e) (
        mark_used-IsSound services row now
          (record db { users = put_user user.id verified db.users })
          (record {
            ids = λ j. omega (
              arith,
              sound.ids j,
              count_if-map_eq (has_id j) (verify user.id) db.users (λ u. ground arith),
            );
            names = λ n. omega (
              arith,
              sound.names n,
              count_if-map_eq (has_name services n) (verify user.id) db.users (λ u. ground arith),
            );
            addresses = λ a.
                verified_only db.users user row.email a mail (sound.ids user.id) got'
                  (sound.addresses a) free;
            links = sound.links;
          }))
