-- ===== src/Exams/Sums.antt =====
-- backend/src/tradeschool/exams/service.py, `submit_exam`: sums over the dictionaries of the blocks.
use tradeschool.Base.{
  ℕ, ◌+◌, String, ◌≡◌, refl, true, false, some, List, [], ◌∷◌, ◌++◌, arith, or_else, sum_by,
  contains, contains-cons, contains-nil, contains-append, Distinct, str_eq_iff, str_eq_self,
}
use tradeschool.Base.Dict.{Dict, lookup, insert, has_key, lookup-insert, lookup-insert_self}

abbrev pub value : Dict ℕ → String → ℕ
value d b = or_else (lookup b d) 0

abbrev pub sum_of : Dict ℕ → List String → ℕ
sum_of d = sum_by (value d)

sum-insert_ne :
    (b : String) (v : ℕ) (d : Dict ℕ) (order : List String)
    → contains b order ≡ false
    → sum_of (insert b v d) order ≡ sum_of d order
sum-insert_ne b v d [] h = refl
sum-insert_ne b v d (x ∷ order) h =
    ground (arith, contains-cons b x order, lookup-insert b x v d, sum-insert_ne b v d order)

sum-insert :
    (b : String) (v : ℕ) (d : Dict ℕ) (order : List String)
    → Distinct order
    → contains b order ≡ true
    → sum_of (insert b v d) order + value d b ≡ sum_of d order + v
sum-insert b v d [] u h = cc (contains-nil b)
sum-insert b v d (x ∷ order) u h = ground (
  arith,
  str_eq_iff b x,
  contains-cons b x order,
  lookup-insert b x v d,
  sum-insert_ne b v d order,
  sum-insert b v d order u.1,
)

sum-append : (d : Dict ℕ) (xs ys : List String) → sum_of d (xs ++ ys) ≡ sum_of d xs + sum_of d ys
sum-append d [] ys = omega arith
sum-append d (x ∷ xs) ys = omega (arith, sum-append d xs ys)

pub last_contained : (b : String) (xs : List String) → contains b (xs ++ b ∷ []) ≡ true
last_contained b xs =
    ground (arith, contains-append b xs (b ∷ []), contains-cons b b [], str_eq_self b)

pub Distinct-append :
    (xs : List String) (b : String) → Distinct xs → contains b xs ≡ false → Distinct (xs ++ b ∷ [])
Distinct-append [] b u h = (contains-nil b, tt)
Distinct-append (x ∷ xs) b u h = (
  ground (
    arith,
    u.0,
    contains-append x xs (b ∷ []),
    contains-cons x b [],
    contains-nil x,
    contains-cons b x xs,
    str_eq_iff x b,
    str_eq_self b,
  ),
  Distinct-append xs b u.1 (ground (arith, contains-cons b x xs)),
)

-- A new block with nothing in it, at the end.
pub has_key-enter :
    (b j : String) (order : List String) (d : Dict ℕ)
    → has_key j d ≡ contains j order
    → has_key j (insert b 0 d) ≡ contains j (order ++ b ∷ [])
has_key-enter b j order d h = ground (
  arith,
  lookup-insert b j 0 d,
  contains-append j order (b ∷ []),
  contains-cons j b [],
  contains-nil j,
  str_eq_iff b j,
  str_eq_iff j b,
)

pub sum-enter :
    (b : String) (order : List String) (d : Dict ℕ)
    → contains b order ≡ false
    → sum_of (insert b 0 d) (order ++ b ∷ []) ≡ sum_of d order
sum-enter b order d h = ground (
  arith,
  sum-append (insert b 0 d) order (b ∷ []),
  sum-insert_ne b 0 d order,
  lookup-insert_self b 0 d,
)

-- One more, in a block that is there.
pub has_key-increase :
    (b j : String) (v : ℕ) (order : List String) (d : Dict ℕ)
    → contains b order ≡ true
    → has_key j d ≡ contains j order
    → has_key j (insert b v d) ≡ contains j order
has_key-increase b j v order d e h = ground (arith, lookup-insert b j v d, str_eq_iff b j)

pub sum-increase :
    (b : String) (n old : ℕ) (d : Dict ℕ) (order : List String)
    → Distinct order
    → contains b order ≡ true
    → lookup b d ≡ some old
    → sum_of (insert b (old + n) d) order ≡ sum_of d order + n
sum-increase b n old d order u e h = ground (arith, sum-insert b (old + n) d order u e)
