-- ===== src/Auth/Tokens.antt =====
-- backend/src/tradeschool/auth/email_tokens.py: single-use mailed tokens, of which only the newest of
-- each purpose works.
use tradeschool.Base.{
  ℕ, ◌+◌, String, Bool, false, not, ◌&&◌, ◌||◌, Option, none, some, List, [], ◌∷◌, ◌++◌, map, ◌==◌,
  ltb, leb, find, select, is_some, str_eq, if◌then◌else◌,
}
use tradeschool.Auth.Models.{TokenPurpose, purpose_eq, EmailToken, Services, AuthDb}

-- `RESEND_COOLDOWN`, in seconds.
abbrev pub resend_cooldown : ℕ
resend_cooldown = 60

abbrev pub issued_to : ℕ → TokenPurpose → EmailToken → Bool
issued_to user_id purpose row = row.user_id == user_id && purpose_eq row.purpose purpose

-- The newest time of creation.
abbrev pub later : EmailToken → Option ℕ → Option ℕ
later row none = some row.created_at
later row (some best) = some (if ltb best row.created_at then row.created_at else best)

abbrev pub newest : List EmailToken → Option ℕ
newest [] = none
newest (row ∷ rows) = later row (newest rows)

-- `newest > now - RESEND_COOLDOWN`
unfoldable pub issued_recently : AuthDb → ℕ → TokenPurpose → ℕ → Bool
issued_recently db user_id purpose now =
    elim (newest (select (issued_to user_id purpose) db.email_tokens)) [
      | none ↦ false
      | some created ↦ ltb now (created + resend_cooldown)
    ]

-- `issue`: `token` and `id` are what the random sources draw; the time to live is in seconds.
unfoldable pub issue :
    Services → ℕ → TokenPurpose → String → (ttl now id : ℕ) → String → AuthDb → AuthDb
issue services user_id purpose email ttl now id token db = record db {
  email_tokens =
      select (λ row. not (issued_to user_id purpose row)) db.email_tokens
      ++ (record {
        id = id;
        user_id = user_id;
        purpose = purpose;
        email = email;
        token_hash = services.hash_token token;
        expires_at = now + ttl;
        used_at = none;
        created_at = now;
      }
          ∷ []);
}

abbrev pub hashed_as : String → TokenPurpose → EmailToken → Bool
hashed_as hash purpose row = str_eq row.token_hash hash && purpose_eq row.purpose purpose

unfoldable pub find_active : Services → String → TokenPurpose → ℕ → AuthDb → Option EmailToken
find_active services token purpose now db =
    elim (find (hashed_as (services.hash_token token) purpose) db.email_tokens) [
      | none ↦ none
      | some row ↦ if is_some row.used_at || leb row.expires_at now then none else some row
    ]

unfoldable pub mark_used : EmailToken → ℕ → AuthDb → AuthDb
mark_used used now db = record db {
  email_tokens =
      map
        (λ (row : EmailToken). if row.id == used.id then record row { used_at = some now } else row)
        db.email_tokens;
}
