-- ===== src/Auth/Requests.antt =====
-- Requests of backend/src/tradeschool/auth one by one: a registration, a request for a reset and the reset
-- keep the tables sound.
use tradeschool.Base.{
  ℕ, ◌≤◌, String, ◌≡◌, refl, sym, ap, subst, Bool, false, none, [], ◌∷◌, ◌++◌, All-map_left, find,
  find-none-All, count_if, count_if-append, arith, Bool-cases, Option-cases, inl, inr, ◌==◌,
  str_eq_iff, ok, Result-cases,
}
use tradeschool.Auth.Models.{User, password_reset, EmailToken, Services, AuthDb, get_user, put_user}
use tradeschool.Auth.Tokens.{issued_recently, mark_used}
use tradeschool.Auth.Reset
use tradeschool.Auth.Reset.{
  reset_ttl, reachable, mail_reset, request_for_email, target, end_sessions,
}
use tradeschool.Auth.Manager.{
  goes_by, get_by_username, normalize_username, validate_password, new_user, register,
  with_password, set_password,
}
use tradeschool.Auth.Invariant.{has_id, has_name, has_address, IsSound, put_user-IsSound}
use tradeschool.Base.Counts.{count_if_none}
use tradeschool.Auth.Operations.{mark_used-IsSound, mailed-IsSound}

module _ (services : Services) where
  -- A registration that succeeds adds an account under a name that was free.
  pub register_steps :
      (username password locale : String) (now id : ℕ) (db db' : AuthDb) (user : User)
      → register services username password locale now id db ≡ ok (db', user)
      → (uname : String) × (get_by_username services uname db ≡ none)
        × (normalize_username services username ≡ ok uname)
        × (user ≡ new_user services uname password locale now id)
        × (db' ≡ record db { users = db.users ++ (user ∷ []) })
  unfolding register
  register_steps username password locale now id db db' user h =
      elim (Result-cases (validate_password password)) [
        | inr (f, e) ↦ absurd (ground (arith, e, h))
        | inl (_, e) ↦ elim (Result-cases (normalize_username services username)) [
          | inr (f, n) ↦ absurd (ground (arith, e, n, h))
          | inl (uname, n) ↦ elim (Option-cases (get_by_username services uname db)) [
            | inr (taken, t) ↦ absurd (ground (arith, e, n, t, h))
            | inl free ↦
                (uname, free, n, ground (arith, e, n, free, h), ground (arith, e, n, free, h))
          ]
        ]
      ]

  pub added-IsSound :
      (uname : String) (user : User) (db : AuthDb)
      → user.username ≡ uname
      → user.is_verified ≡ false
      → get_by_username services uname db ≡ none
      → get_user db user.id ≡ none
      → IsSound services db
      → IsSound services (record db { users = db.users ++ (user ∷ []) })
  added-IsSound uname user db name unverified free fresh sound = record {
    ids = λ i. elim (Bool-cases (user.id == i)) [
      | inl e ↦ omega (
        arith,
        count_if-append (has_id i) db.users (user ∷ []),
        at_most_one (has_id i),
        count_if_none (has_id i) db.users (
            All-map_left (λ (u : User). (u.id == user.id) ≡ false) (λ u. has_id i u ≡ false)
              db.users (λ u n. ground (arith, n, e))
              (find-none-All (has_id user.id) db.users fresh)),
      )
      | inr e ↦ omega (
        arith,
        count_if-append (has_id i) db.users (user ∷ []),
        sound.ids i,
        count_if_none (has_id i) (user ∷ []) (e, tt),
      )
    ];
    names = λ n. elim (Bool-cases (has_name services n user)) [
      | inl e ↦ omega (
        arith,
        count_if-append (has_name services n) db.users (user ∷ []),
        at_most_one (has_name services n),
        count_if_none (has_name services n) db.users (
            All-map_left (λ u. goes_by services uname u ≡ false)
              (λ u. has_name services n u ≡ false) db.users
              (λ u f. ground (
                arith,
                f,
                name,
                str_eq_iff (services.db_lower user.username) n,
                str_eq_iff (services.db_lower u.username) n,
                str_eq_iff (services.db_lower u.username) (services.db_lower uname),
                ap services.db_lower name,
              ))
              (find-none-All (goes_by services uname) db.users free)),
      )
      | inr e ↦ omega (
        arith,
        count_if-append (has_name services n) db.users (user ∷ []),
        sound.names n,
        count_if_none (has_name services n) (user ∷ []) (e, tt),
      )
    ];
    addresses = λ a. omega (
      arith,
      count_if-append (has_address services a) db.users (user ∷ []),
      sound.addresses a,
      count_if_none (has_address services a) (user ∷ []) (ground (arith, unverified), tt),
    );
    links = sound.links;
  }
    where
      at_most_one : (test : User → Bool) → count_if test (user ∷ []) ≤ 1
      at_most_one test = ground arith

  pub request_for_email-IsSound :
      (email : String) (now id : ℕ) (token : String) (db : AuthDb)
      → IsSound services db
      → IsSound services (request_for_email services email now id token db)
  unfolding request_for_email mail_reset
  request_for_email-IsSound email now id token db sound =
      elim (Option-cases (find (reachable services email) db.users)) [
        | inl e ↦ subst (IsSound services) (ground (arith, e)) sound
        | inr (user, e) ↦ elim (Option-cases user.email) [
          | inl n ↦ subst (IsSound services) (ground (arith, e, n)) sound
          | inr (address, n) ↦ elim (Bool-cases (issued_recently db user.id password_reset now)) [
            | inl t ↦ subst (IsSound services) (ground (arith, e, n, t)) sound
            | inr t ↦ subst (IsSound services) (ground (arith, e, n, t)) (
                mailed-IsSound services address user.id reset_ttl now id password_reset token db
                  sound)
          ]
        ]
      ]

  -- The steps of a reset that succeeds.
  pub reset_steps :
      (token password : String) (now : ℕ) (db db' : AuthDb)
      → Reset.confirm services token password now db ≡ ok db'
      → (row : EmailToken) × (user : User) × (target services token now db ≡ ok (row, user))
        × (db'
            ≡ end_sessions user.id (
                mark_used row now (record db {
                  users = put_user user.id (with_password services password) db.users;
                })))
  unfolding Reset.confirm set_password
  reset_steps token password now db db' h = elim (Result-cases (target services token now db)) [
    | inr (f, e) ↦ absurd (ground (arith, e, h))
    | inl ((row, user), e) ↦ elim (Result-cases (validate_password password)) [
      | inr (f, v) ↦ absurd (ground (arith, e, v, h))
      | inl (_, v) ↦ (row, user, e, ground (arith, e, v, h))
    ]
  ]

  pub reset-IsSound :
      (token password : String) (now : ℕ) (db db' : AuthDb)
      → Reset.confirm services token password now db ≡ ok db'
      → IsSound services db
      → IsSound services db'
  reset-IsSound token password now db db' h sound =
      let (row, user, _, e) = reset_steps token password now db db' h in
      let changed = record db {
        users = put_user user.id (with_password services password) db.users;
      } in
      let marked = mark_used-IsSound services row now changed (
        put_user-IsSound services db sound user.id (with_password services password) (λ u. refl)
          (λ u. refl) (λ u a k. k)) in
      subst (IsSound services) (sym e) (record {
        ids = marked.ids;
        names = marked.names;
        addresses = marked.addresses;
        links = marked.links;
      })
