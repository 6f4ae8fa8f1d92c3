-- ===== src/Auth/Invariant.antt =====
-- What the tables of backend/src/tradeschool/auth satisfy: no name and no verified address belongs to two
-- accounts, and of the links of one purpose an account has at most one.
use tradeschool.Base.{
  ℕ, ◌+◌, ◌≤◌, String, ◌≡◌, ◌↔◌, Bool, true, not, ◌&&◌, none, [], ◌∷◌, All-intro, select, count_if,
  count_if-append, arith, Bool-cases, inl, inr, ◌==◌, str_eq, if◌then◌else◌,
}
use tradeschool.Auth.Models.{User, TokenPurpose, EmailToken, Services, AuthDb, purpose_eq, put_user}
use tradeschool.Auth.Tokens.{issued_to, issue}
use tradeschool.Auth.Verification.{mail_is}
use tradeschool.Base.Counts.{
  count_if-implies, count_if-map_narrow, count_if-map_eq, count_if_none, count_if-select_le,
  count_if-select_none,
}

abbrev pub has_id : ℕ → User → Bool
has_id i u = u.id == i

abbrev pub has_name : Services → String → User → Bool
has_name services name u = str_eq (services.db_lower u.username) name

abbrev pub has_address : Services → String → User → Bool
has_address services address u = mail_is services.db_lower address u.email && u.is_verified

pub record IsSound (services : Services) (db : AuthDb) : Type 0 where
  pub ids : (i : ℕ) → count_if (has_id i) db.users ≤ 1
  pub names : (name : String) → count_if (has_name services name) db.users ≤ 1
  pub addresses : (address : String) → count_if (has_address services address) db.users ≤ 1
  pub links : (i : ℕ) (p : TokenPurpose) → count_if (issued_to i p) db.email_tokens ≤ 1

one_at_most : (test : EmailToken → Bool) (row : EmailToken) → count_if test (row ∷ []) ≤ 1
one_at_most test row = ground arith

pub purpose_eq_iff : (p q : TokenPurpose) → (purpose_eq p q ≡ true) ↔ (p ≡ q)
purpose_eq_iff p q = ((λ h. ground arith), (λ h. ground arith))

same_purpose :
    (i j : ℕ) (p q : TokenPurpose) (row : EmailToken)
    → (i == j && purpose_eq p q) ≡ true
    → issued_to j q row ≡ true
    → issued_to i p row ≡ true
same_purpose i j p q row e h =
    ground (arith, purpose_eq_iff p q, purpose_eq_iff row.purpose q, purpose_eq_iff row.purpose p)

module _ (services : Services) (db : AuthDb) (sound : IsSound services db) where
  -- A change of accounts that keeps ids and names and verifies no address.
  pub put_user-IsSound :
      (i : ℕ) (change : User → User)
      → ((u : User) → (change u).id ≡ u.id)
      → ((u : User) → (change u).username ≡ u.username)
      → ((u : User) (address : String)
          → has_address services address (change u) ≡ true
          → has_address services address u ≡ true)
      → IsSound services (record db { users = put_user i change db.users })
  put_user-IsSound i change id name address =
      let f = λ (u : User). if u.id == i then change u else u in
      record {
        ids = λ j.
            omega (
              arith,
              sound.ids j,
              count_if-map_eq (has_id j) f db.users (λ u. ground (arith, id u)),
            );
        names = λ n. omega (
          arith,
          sound.names n,
          count_if-map_eq (has_name services n) f db.users (λ u. ground (arith, name u)),
        );
        addresses = λ a. omega (
          arith,
          sound.addresses a,
          count_if-map_narrow (has_address services a) f db.users (
              All-intro (λ u. has_address services a (f u) ≡ true → has_address services a u ≡ true)
                db.users (λ u h. ground (arith, address u a, h))),
        );
        links = sound.links;
      }

  pub issue-IsSound :
      (i : ℕ) (p : TokenPurpose) (email : String) (ttl now id : ℕ) (token : String)
      → IsSound services (issue services i p email ttl now id token db)
  unfolding issue
  issue-IsSound i p email ttl now id token = record {
    ids = sound.ids;
    names = sound.names;
    addresses = sound.addresses;
    links = λ j q. links_after j q;
  }
    where
      links_after :
          (j : ℕ) (q : TokenPurpose)
          → count_if (issued_to j q) (issue services i p email ttl now id token db).email_tokens ≤ 1
      links_after j q =
          let new : EmailToken = record {
            id = id;
            user_id = i;
            purpose = p;
            email = email;
            token_hash = services.hash_token token;
            expires_at = now + ttl;
            used_at = none;
            created_at = now;
          } in
          let kept = select (λ row. not (issued_to i p row)) db.email_tokens in
          elim (Bool-cases (i == j && purpose_eq p q)) [
            | inl e ↦ omega (
              arith,
              count_if-append (issued_to j q) kept (new ∷ []),
              count_if-implies (issued_to j q) (issued_to i p) kept (
                  All-intro (λ row. issued_to j q row ≡ true → issued_to i p row ≡ true) kept
                    (λ row. same_purpose i j p q row e)),
              count_if-select_none (issued_to i p) db.email_tokens,
              one_at_most (issued_to j q) new,
            )
            | inr e ↦ omega (
              arith,
              count_if-append (issued_to j q) kept (new ∷ []),
              count_if-select_le (issued_to j q) (λ row. not (issued_to i p row)) db.email_tokens,
              sound.links j q,
              count_if_none (issued_to j q) (new ∷ []) (e, tt),
            )
          ]
