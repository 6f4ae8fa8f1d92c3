-- ===== src/Base/Dict.antt =====
-- A Python dict with text keys, in insertion order. Assigning to a key that is there keeps its place.
use tradeschool.Base.{
  ap, ◌∙◌, sym, ◌++◌, true, Bool-cases, inl, inr, String, ◌≡◌, refl, Bool, false, Option, none,
  some, List, [], ◌∷◌, arith, if◌then◌else◌, str_eq, str_eq_iff, str_eq_self, is_some, contains,
  contains-cons, contains-nil, Distinct,
}

abbrev pub Dict {ℓ} : Type ℓ → Type ℓ
Dict V = List (String × V)

module _ {ℓ} {V : Type ℓ} where
  -- `d.get(k)`
  unfoldable pub lookup : String → Dict V → Option V
  lookup k [] = none
  lookup k ((j, v) ∷ d) = if str_eq k j then some v else lookup k d

  -- `d[k] = v`
  unfoldable pub insert : String → V → Dict V → Dict V
  insert k v [] = (k, v) ∷ []
  insert k v ((j, w) ∷ d) = if str_eq k j then (j, v) ∷ d else (j, w) ∷ insert k v d

  abbrev pub keys : Dict V → List String
  keys [] = []
  keys ((k, v) ∷ d) = k ∷ keys d

  -- Assignments one after the other: `for k, v in items: d[k] = v`.
  unfoldable pub insert_all : List (String × V) → Dict V → Dict V
  insert_all [] d = d
  insert_all ((k, v) ∷ r) d = insert_all r (insert k v d)

  -- `k in d`
  abbrev pub has_key : String → Dict V → Bool
  has_key k d = is_some (lookup k d)

  pub lookup-insert :
      (k j : String) (v : V) (d : Dict V)
      → lookup j (insert k v d) ≡ (if str_eq k j then some v else lookup j d)
  unfolding lookup insert
  lookup-insert k j v [] = ground (arith, str_eq_iff k j, str_eq_iff j k)
  lookup-insert k j v ((i, w) ∷ d) =
      ground (
        arith,
        str_eq_iff k j,
        str_eq_iff j k,
        str_eq_iff k i,
        str_eq_iff j i,
        lookup-insert k j v d,
      )

  pub lookup-insert_self : (k : String) (v : V) (d : Dict V) → lookup k (insert k v d) ≡ some v
  lookup-insert_self k v d = simp (lookup-insert, str_eq_self)

  -- Keys that are not assigned keep their value.
  pub lookup-insert_all_ne :
      (k : String) (r : List (String × V)) (d : Dict V)
      → contains k (keys r) ≡ false
      → lookup k (insert_all r d) ≡ lookup k d
  unfolding insert_all
  lookup-insert_all_ne k [] d h = refl
  lookup-insert_all_ne k ((j, v) ∷ r) d h = ground (
    arith,
    contains-cons k j (keys r),
    str_eq_iff j k,
    str_eq_iff k j,
    lookup-insert_all_ne k r (insert j v d),
    lookup-insert j k v d,
  )

  -- With distinct keys the assignments can be read back: each key has its own value.
  pub lookup-insert_all :
      (k : String) (r : List (String × V)) (d : Dict V)
      → Distinct (keys r)
      → lookup k (insert_all r d) ≡ (if contains k (keys r) then lookup k r else lookup k d)
  unfolding insert_all lookup
  lookup-insert_all k [] d h = rw (contains-nil k) refl
  lookup-insert_all k ((j, v) ∷ r) d h = ground (
    arith,
    contains-cons k j (keys r),
    str_eq_iff j k,
    str_eq_iff k j,
    lookup-insert_all k r (insert j v d) h.1,
    lookup-insert j k v d,
  )

  pub keys-append : (xs ys : Dict V) → keys (xs ++ ys) ≡ keys xs ++ keys ys
  keys-append [] ys = refl
  keys-append ((k, v) ∷ xs) ys = ap (◌∷◌ k) (keys-append xs ys)

  pub lookup-some-contains :
      (k : String) (d : Dict V) (v : V) → lookup k d ≡ some v → contains k (keys d) ≡ true
  unfolding lookup
  lookup-some-contains k [] v h = cc
  lookup-some-contains k ((j, w) ∷ d) v h =
      ground (arith, contains-cons k j (keys d), lookup-some-contains k d v)

  pub lookup-none-contains :
      (k : String) (d : Dict V) → contains k (keys d) ≡ false → lookup k d ≡ none
  unfolding lookup
  lookup-none-contains k [] h = refl
  lookup-none-contains k ((j, w) ∷ d) h =
      ground (arith, contains-cons k j (keys d), lookup-none-contains k d)

  -- Assignments of distinct keys to an empty dictionary read back as the list itself.
  pub lookup-insert_all_nil :
      (k : String) (r : List (String × V))
      → Distinct (keys r)
      → lookup k (insert_all r []) ≡ lookup k r
  unfolding lookup
  lookup-insert_all_nil k r h = elim (Bool-cases (contains k (keys r))) [
    | inl e ↦ lookup-insert_all k r [] h ∙ rw e
    | inr e ↦ lookup-insert_all k r [] h ∙ rw e (sym (lookup-none-contains k r e))
  ]
