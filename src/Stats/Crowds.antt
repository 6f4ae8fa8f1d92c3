-- ===== src/Stats/Crowds.antt =====
-- backend/src/tradeschool/stats/service.py, `global_stats`: the sets of learners that the loop gathers hold
-- different learners, each of whom has answered there.
use tradeschool.Base.{
  ℕ, ◌==◌, String, ◌≡◌, refl, subst, Bool, true, false, ◌&&◌, some, none, List, [], ◌∷◌, ◌++◌, any,
  All, All-append, All-map_left, arith, str_eq, str_eq_iff, str_eq_self, or_else, Bool-cases,
  Option-cases, inl, inr, if◌then◌else◌,
}
use tradeschool.Base.Dict.{Dict, lookup, insert, lookup-insert}
use tradeschool.Content.Registry.{CourseRegistry}
use tradeschool.Exercises.Generator.{Platform}
use tradeschool.Store.{Attempt}
use tradeschool.Stats.{was_correct}
use tradeschool.Stats.Global.{
  First, Crowd, first_seen_of, is_first_of, add_learner, exercise_of_key, crowd_one, crowd_of,
  empty_crowd,
}

-- No learner stands twice.
abbrev pub AreDifferent : List ℕ → Type 0
AreDifferent [] = Unit
AreDifferent (u ∷ us) = (any (λ v. v == u) us ≡ false) × AreDifferent us

AreDifferent-append :
    (us : List ℕ) (u : ℕ)
    → AreDifferent us
    → any (λ v. v == u) us ≡ false
    → AreDifferent (us ++ u ∷ [])
AreDifferent-append [] u h n = (refl, tt)
AreDifferent-append (v ∷ us) u h n = (
  any-append v us u (ground (arith, h, n)) (ground (arith, n)),
  AreDifferent-append us u h.1 (ground (arith, n)),
)
  where
    any-append :
        (v : ℕ) (us : List ℕ) (u : ℕ)
        → any (λ x. x == v) us ≡ false
        → (v == u) ≡ false
        → any (λ x. x == v) (us ++ u ∷ []) ≡ false
    any-append v [] u h n = ground (arith, h, n)
    any-append v (x ∷ us) u h n = ground (arith, h, n, any-append v us u)

-- What is gathered under a name: different learners, each of whom passes a test.
module _ (test : String → ℕ → Bool) where
  abbrev pub IsGroup : String → List ℕ → Type 0
  IsGroup k us = AreDifferent us × All (λ u. test k u ≡ true) us

  abbrev pub IsGathered : Dict (List ℕ) → Type 0
  IsGathered d = (k : String) → IsGroup k (or_else (lookup k d) [])

  IsGroup-more :
      (k : String) (u : ℕ) (us : List ℕ)
      → test k u ≡ true
      → IsGroup k us
      → IsGroup k (if any (λ v. v == u) us then us else us ++ u ∷ [])
  IsGroup-more k u us h g = elim (Bool-cases (any (λ v. v == u) us)) [
    | inl e ↦ rw e g
    | inr e ↦
        rw e (
          AreDifferent-append us u g.0 e,
          All-append (λ u. test k u ≡ true) us (u ∷ []) g.1 (h, tt),
        )
  ]

  pub add_learner-IsGathered :
      (k : String) (u : ℕ) (d : Dict (List ℕ))
      → test k u ≡ true
      → IsGathered d
      → IsGathered (add_learner k u d)
  add_learner-IsGathered k u d h g j =
      let users = or_else (lookup k d) [] in
      let more = if any (λ v. v == u) users then users else users ++ u ∷ [] in
      elim (Bool-cases (str_eq k j)) [
        | inl e ↦
            let there : some more ≡ lookup j (insert k more d) =
              ground (arith, e, lookup-insert k j more d) in
            subst (λ z. IsGroup j (or_else z [])) there
              (subst (λ i. IsGroup i more) ((str_eq_iff k j).0 e) (IsGroup-more k u users h (g k)))
        | inr e ↦
            let there : lookup j d ≡ lookup j (insert k more d) =
              ground (arith, e, lookup-insert k j more d) in
            subst (λ z. IsGroup j (or_else z [])) there (g j)
      ]

module _ {Config : Type 0} (platform : Platform Config) (registry : CourseRegistry Config)
    (locale : String) (attempts : List Attempt) where
  -- Whether an exercise key stands for that exercise, and for one in that module.
  abbrev pub is_exercise : String → String → Bool
  is_exercise k key = elim (exercise_of_key platform registry locale key) [
    | none ↦ false
    | some (id, _) ↦ str_eq id k
  ]

  abbrev pub is_in_module : String → String → Bool
  is_in_module k key = elim (exercise_of_key platform registry locale key) [
    | none ↦ false
    | some (_, module_id) ↦ str_eq module_id k
  ]

  -- Whether one of the attempts is of that learner and at that place.
  abbrev pub answered_at : (String → String → Bool) → String → ℕ → Bool
  answered_at names k u = any (λ (a : Attempt). a.user_id == u && names k a.exercise_id) attempts

  abbrev IsOwn : First → Type 0
  IsOwn f =
      (names : String → String → Bool) (k : String)
      → names k f.exercise_key ≡ true
      → answered_at names k f.user_id ≡ true

  abbrev as_first : Attempt → First
  as_first a = record { user_id = a.user_id; exercise_key = a.exercise_id; correct = was_correct a }

  first_seen_of-IsOwn :
      (seen : List First) (rows : List Attempt)
      → All IsOwn seen
      → All (λ (a : Attempt). IsOwn (as_first a)) rows
      → All IsOwn (first_seen_of seen rows)
  unfolding first_seen_of
  first_seen_of-IsOwn seen [] h k = h
  first_seen_of-IsOwn seen (a ∷ rows) h k =
      elim (Bool-cases (any (is_first_of a.user_id a.exercise_id) seen)) [
        | inl e ↦ rw e (first_seen_of-IsOwn seen rows h k.1)
        | inr e ↦ rw e (
            first_seen_of-IsOwn (seen ++ as_first a ∷ []) rows
              (All-append IsOwn seen (as_first a ∷ []) h (k.0, tt)) k.1)
      ]

  pub record IsCrowd (c : Crowd) : Type 0 where
    pub exercise_learners : IsGathered (answered_at is_exercise) c.exercise_learners
    pub module_learners : IsGathered (answered_at is_in_module) c.module_learners

  crowd_one-IsCrowd :
      (c : Crowd) (f : First)
      → IsOwn f
      → IsCrowd c
      → IsCrowd (crowd_one platform registry locale c f)
  crowd_one-IsCrowd c f own g =
      elim (Option-cases (exercise_of_key platform registry locale f.exercise_key)) [
        | inl e ↦ rw (crowd_one, e) g
        | inr ((id, module_id), e) ↦
            rw (crowd_one, e)
              (record {
                exercise_learners =
                    add_learner-IsGathered (answered_at is_exercise) id f.user_id
                      c.exercise_learners
                      (own is_exercise id (rw (is_exercise, e) (str_eq_self id)))
                      g.exercise_learners;
                module_learners =
                    add_learner-IsGathered (answered_at is_in_module) module_id f.user_id
                      c.module_learners
                      (own is_in_module module_id (rw (is_in_module, e) (str_eq_self module_id)))
                      g.module_learners;
              })
      ]

  crowd_of-IsCrowd :
      (c : Crowd) (fs : List First)
      → All IsOwn fs
      → IsCrowd c
      → IsCrowd (crowd_of platform registry locale c fs)
  unfolding crowd_of
  crowd_of-IsCrowd c [] h g = g
  crowd_of-IsCrowd c (f ∷ fs) h g =
      crowd_of-IsCrowd (crowd_one platform registry locale c f) fs h.1 (crowd_one-IsCrowd c f h.0 g)

-- Each attempt is one of the attempts.
own_attempts :
    (rows : List Attempt)
    → All
        (λ (a : Attempt).
          (names : String → String → Bool) (k : String)
          → names k a.exercise_id ≡ true
          → any (λ (x : Attempt). x.user_id == a.user_id && names k x.exercise_id) rows ≡ true)
        rows
own_attempts [] = tt
own_attempts (a ∷ rows) = (
  (λ names k h. ground (arith, h)),
  All-map_left
      (λ (a : Attempt).
        (names : String → String → Bool) (k : String)
        → names k a.exercise_id ≡ true
        → any (λ (x : Attempt). x.user_id == a.user_id && names k x.exercise_id) rows ≡ true)
      (λ (b : Attempt).
        (names : String → String → Bool) (k : String)
        → names k b.exercise_id ≡ true
        → any (λ (x : Attempt). x.user_id == b.user_id && names k x.exercise_id) (a ∷ rows) ≡ true)
      rows (λ b f names k h. ground (arith, f names k h)) (own_attempts rows),
)

-- The sets that the loop leaves.
pub gathered-IsCrowd :
    {Config : Type 0} (platform : Platform Config) (registry : CourseRegistry Config)
    (locale : String) (attempts : List Attempt)
    → IsCrowd platform registry locale attempts
        (crowd_of platform registry locale empty_crowd (first_seen_of [] attempts))
unfolding lookup
gathered-IsCrowd platform registry locale attempts =
    crowd_of-IsCrowd platform registry locale attempts empty_crowd (first_seen_of [] attempts)
      (first_seen_of-IsOwn platform registry locale attempts [] attempts tt (own_attempts attempts))
      (record { exercise_learners = λ k. (tt, tt); module_learners = λ k. (tt, tt) })
