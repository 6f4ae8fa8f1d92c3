-- ===== src/Auth/Steps.antt =====
-- The requests that change the tables of backend/src/tradeschool/auth, as steps, and what holds in every
-- state that they reach from empty tables.
use tradeschool.Base.{ℕ, String, ◌≡◌, refl, sym, ap, subst, Option, none, List, [], arith, ok}
use tradeschool.Auth.Models.{User, AccessToken, Services, AuthDb, get_user}
use tradeschool.Auth.Verification
use tradeschool.Auth.Verification.{send_link, change_email}
use tradeschool.Auth.Reset
use tradeschool.Auth.Reset.{
  reset_ttl, reachable, mail_reset, request_for_email, target, end_sessions,
}
use tradeschool.Auth.Manager.{register, set_locale}
use tradeschool.Auth.Invariant.{IsSound, put_user-IsSound}
use tradeschool.Auth.Operations.{send_link-IsSound, change_email-IsSound}
use tradeschool.Auth.Confirmed.{confirm-IsSound}
use tradeschool.Auth.Requests.{
  register_steps, added-IsSound, request_for_email-IsSound, reset-IsSound,
}

module _ (services : Services) where
  -- One request that changes the tables. The account of a change is the one that the session names;
  -- the uuid of a new account is new. Signing in and out are the library's: they only add and remove
  -- session tokens.
  pub data Step (db : AuthDb) : AuthDb → Type 0 where
    registered :
        (username password locale : String) (now id : ℕ) {db' : AuthDb} {user : User}
        → get_user db id ≡ none
        → register services username password locale now id db ≡ ok (db', user)
        → Step db db'
    locale_set : (user : User) (locale : String) → Step db (set_locale user locale db)
    email_changed :
        (user : User) (email : Option String) (now id : ℕ) (token : String) {db' : AuthDb}
        {user' : User}
        → change_email services user email now id token db ≡ ok (db', user')
        → Step db db'
    link_sent :
        (user : User) (now id : ℕ) (token : String)
        → Step db (send_link services user now id token db)
    email_confirmed :
        (token : String) (now : ℕ) {db' : AuthDb}
        → Verification.confirm services token now db ≡ ok db'
        → Step db db'
    reset_requested :
        (email : String) (now id : ℕ) (token : String)
        → Step db (request_for_email services email now id token db)
    password_changed :
        (token password : String) (now : ℕ) {db' : AuthDb}
        → Reset.confirm services token password now db ≡ ok db'
        → Step db db'
    sessions_changed : (rows : List AccessToken) → Step db (record db { access_tokens = rows })

  pub data Reach : AuthDb → Type 0 where
    empty : Reach (record { users = []; access_tokens = []; email_tokens = []; outbox = [] })
    after : {db db' : AuthDb} → Reach db → Step db db' → Reach db'

  Step-IsSound :
      {db db' : AuthDb}
      → ((s : String) → services.lower s ≡ services.db_lower s)
      → Step db db'
      → IsSound services db
      → IsSound services db'
  unfolding set_locale
  Step-IsSound {db} agree (registered username password locale now id {db'} {user} fresh h) sound =
      let (uname, free, _, made, e) =
        register_steps services username password locale now id db db' user h in
      subst (IsSound services) (sym e) (
        added-IsSound services uname user db (ap (λ (u : User). u.username) made)
          (ap (λ (u : User). u.is_verified) made) free
          (subst (λ i. get_user db i ≡ none) (sym (ap (λ (u : User). u.id) made)) fresh) sound)
  Step-IsSound {db} agree (locale_set user locale) sound =
      put_user-IsSound services db sound user.id (λ (u : User). record u { locale = locale })
        (λ u. refl) (λ u. refl) (λ u a k. k)
  Step-IsSound {db} agree (email_changed user email now id token {db'} {user'} h) sound =
      change_email-IsSound services user user' email now id token db db' h sound
  Step-IsSound {db} agree (link_sent user now id token) sound =
      send_link-IsSound services user now id token db sound
  Step-IsSound {db} agree (email_confirmed token now {db'} h) sound =
      confirm-IsSound services agree token now db db' h sound
  Step-IsSound {db} agree (reset_requested email now id token) sound =
      request_for_email-IsSound services email now id token db sound
  Step-IsSound {db} agree (password_changed token password now {db'} h) sound =
      reset-IsSound services token password now db db' h sound
  Step-IsSound agree (sessions_changed rows) sound = record {
    ids = sound.ids;
    names = sound.names;
    addresses = sound.addresses;
    links = sound.links;
  }

  -- In every state that requests reach from empty tables: at most one account has a given id, a given
  -- name, or a given verified address (both in lower case), and an account has at most one link of each
  -- purpose; given that Python and the database agree on lower case.
  pub Reach-IsSound :
      {db : AuthDb}
      → ((s : String) → services.lower s ≡ services.db_lower s)
      → Reach db
      → IsSound services db
  Reach-IsSound agree empty = record {
    ids = λ i. omega arith;
    names = λ n. omega arith;
    addresses = λ a. omega arith;
    links = λ i p. omega arith;
  }
  Reach-IsSound agree (after r step) = Step-IsSound agree step (Reach-IsSound agree r)
