-- ===== src/Exams/Filled.antt =====
-- The variables of the loop of `submit_exam`, backend/src/tradeschool/exams/service.py: the blocks that its
-- dictionaries know.
use tradeschool.Base.{
  String, ◌≡◌, sym, true, some, List, [], ◌∷◌, ◌++◌, arith, contains, contains-nil, contains-cons,
  contains-append, inl, inr, Option-cases, str_eq_iff, str_eq_self,
}
use tradeschool.Base.Dict.{Dict, lookup, insert, has_key, lookup-insert}
use tradeschool.Store.{Attempt}
use tradeschool.Exams.Submit.{Tally, empty_tally}

-- The three maps of a tally know exactly the blocks that were entered.
pub record IsFilled (t : Tally) : Type 0 where
  pub titles_in : (b : String) → has_key b t.block_titles ≡ contains b t.block_order
  pub totals_in : (b : String) → has_key b t.block_total ≡ contains b t.block_order
  pub corrects_in : (b : String) → has_key b t.block_correct ≡ contains b t.block_order

pub empty-IsFilled : (attempts : List Attempt) → IsFilled (empty_tally attempts)
unfolding lookup
empty-IsFilled attempts = record {
  titles_in = λ b. sym (contains-nil b);
  totals_in = λ b. sym (contains-nil b);
  corrects_in = λ b. sym (contains-nil b);
}

pub has_key-new :
    {V : Type 0} (b j : String) (v : V) (order : List String) (d : Dict V)
    → has_key j d ≡ contains j order
    → has_key j (insert b v d) ≡ contains j (order ++ b ∷ [])
has_key-new b j v order d h = ground (
  arith,
  lookup-insert b j v d,
  contains-append j order (b ∷ []),
  contains-cons j b [],
  contains-nil j,
  str_eq_iff b j,
  str_eq_iff j b,
)

pub has_key-old :
    {V : Type 0} (b j : String) (v : V) (order : List String) (d : Dict V)
    → contains b order ≡ true
    → has_key j d ≡ contains j order
    → has_key j (insert b v d) ≡ contains j order
has_key-old b j v order d e h = ground (arith, lookup-insert b j v d, str_eq_iff b j)

pub last_known : (b : String) (order : List String) → contains b (order ++ b ∷ []) ≡ true
last_known b order =
    ground (arith, contains-append b order (b ∷ []), contains-cons b b [], str_eq_self b)

pub has_key-lookup :
    {V : Type 0} (k : String) (d : Dict V) → has_key k d ≡ true → (v : V) × (lookup k d ≡ some v)
has_key-lookup k d h = elim (Option-cases (lookup k d)) [
  | inl e ↦ absurd (ground (arith, h, e))
  | inr found ↦ found
]
