-- ===== src/Exercises/Quiz/Dicts.antt =====
-- backend/src/tradeschool/exercises/quiz.py, the matching kind: dictionaries that are compared as a whole.
use tradeschool.Base.{
  String, ◌≡◌, refl, sym, ◌∙◌, true, ◌||◌, some, List, [], ◌∷◌, contains, contains-cons,
  contains-nil, str_eq, str_eq_self, str_eq_iff, opt_str_eq_iff, arith, Distinct, Bool-cases, inl,
  inr,
}
use tradeschool.Base.Dict.{
  Dict, lookup, insert, insert_all, keys, lookup-some-contains, lookup-insert_all_nil,
}
use tradeschool.Exercises.Quiz.Grade.{same_dict, is_within}

contains-keys-insert :
    (s k v : String) (d : Dict String)
    → contains s (keys (insert k v d)) ≡ (str_eq s k || contains s (keys d))
unfolding insert
contains-keys-insert s k v [] = contains-cons s k []
contains-keys-insert s k v ((j, w) ∷ d) = ground (
  arith,
  str_eq_iff k j,
  str_eq_iff s k,
  str_eq_iff s j,
  contains-keys-insert s k v d,
  contains-cons s j (keys d),
  contains-cons s j (keys (insert k v d)),
)

insert-Distinct :
    (k v : String) (d : Dict String) → Distinct (keys d) → Distinct (keys (insert k v d))
unfolding insert
insert-Distinct k v [] h = (contains-nil k, tt)
insert-Distinct k v ((j, w) ∷ d) h = elim (Bool-cases (str_eq k j)) [
  | inl e ↦ rw e h
  | inr e ↦ rw e (
    ground
        (arith, contains-keys-insert j k v d, str_eq_iff j k, str_eq_iff k j, h.0, str_eq_self j),
    insert-Distinct k v d h.1,
  )
]

-- A dictionary has each key once.
pub insert_all-Distinct :
    (entries : List (String × String)) (d : Dict String)
    → Distinct (keys d)
    → Distinct (keys (insert_all entries d))
unfolding insert_all
insert_all-Distinct [] d h = h
insert_all-Distinct ((k, v) ∷ entries) d h =
    insert_all-Distinct entries (insert k v d) (insert-Distinct k v d h)

within-of_lookup :
    (d e : Dict String)
    → Distinct (keys d)
    → ((k v : String) → lookup k d ≡ some v → lookup k e ≡ some v)
    → is_within d e ≡ true
unfolding lookup
within-of_lookup [] e h g = refl
within-of_lookup ((k, v) ∷ d) e h g =
    let here : lookup k e ≡ some v = g k v (ground (arith, str_eq_self k)) in
    let there = λ (j w : String) (c : lookup j d ≡ some w).
      g j w (ground (arith, str_eq_iff j k, lookup-some-contains j d w c, h.0)) in
    rw (here, within-of_lookup d e h.1 there) (ground (arith, opt_str_eq_iff (some v) (some v)))

-- Writing the entries of a dictionary into an empty one gives an equal one.
pub same_dict-insert_all :
    (d : Dict String) → Distinct (keys d) → same_dict (insert_all d []) d ≡ true
same_dict-insert_all d h =
    let same = λ (k : String). lookup-insert_all_nil k d h in
    rw
      (
        within-of_lookup (insert_all d []) d (insert_all-Distinct d [] tt)
            (λ k v c. sym (same k) ∙ c),
        within-of_lookup d (insert_all d []) h (λ k v c. same k ∙ c),
      )
      refl
