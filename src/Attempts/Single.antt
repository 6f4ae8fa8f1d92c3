-- ===== src/Attempts/Single.antt =====
-- backend/src/tradeschool/attempts/service.py: opening an attempt, and the open practice attempts of a
-- learner at an exercise.
use tradeschool.Base.{
  Result-cases, append-nil, ℕ, ◌≤◌, String, ◌≡◌, refl, true, not, List, [], ◌∷◌, ◌++◌, arith,
  str_eq_iff, str_eq_self, count_if, count_if-append, count_if-map_le, count_if-map_none,
  Bool-cases, inl, inr, ok, select, select-append, select-map_same, All-intro,
}
use tradeschool.Content.Registry.{CourseRegistry, slug, exercise_key}
use tradeschool.Exercises.Generator.{Platform}
use tradeschool.Store.{Attempt, Db, is_practice, commit-eq-ok}
use tradeschool.Attempts.{supersedes, abandon, create, open_attempt, OpenedAttempt}

-- At most one open practice attempt for each user, course and exercise key.
abbrev pub IsSingle : List Attempt → Type 0
IsSingle attempts =
    (user_id : ℕ) (course_id key : String)
    → count_if (supersedes user_id course_id key) attempts ≤ 1

-- The rows that `create` writes.
abbrev pub reopened : ℕ → String → String → Attempt → List Attempt → List Attempt
reopened user_id course_id key a attempts =
    abandon (supersedes user_id course_id key) attempts ++ a ∷ []

module _ (user_id : ℕ) (course_id key : String) where
  abandon-none :
      (attempts : List Attempt)
      → count_if
          (supersedes user_id course_id key)
          (abandon (supersedes user_id course_id key) attempts)
        ≡ 0
  abandon-none attempts =
      count_if-map_none (supersedes user_id course_id key) _ attempts (λ a. ground arith)

  abandon-le :
      (u : ℕ) (c k : String) (attempts : List Attempt)
      → count_if (supersedes u c k) (abandon (supersedes user_id course_id key) attempts)
        ≤ count_if (supersedes u c k) attempts
  abandon-le u c k attempts = count_if-map_le (supersedes u c k) _ attempts (λ a. ground arith)

  -- A row of this user, course and exercise key.
  abbrev pub OfKey : Attempt → Type 0
  OfKey a = (a.user_id ≡ user_id) × (a.course_id ≡ course_id) × (a.exercise_id ≡ key)

  supersedes-same :
      (u : ℕ) (c k : String) (a : Attempt)
      → OfKey a
      → supersedes u c k a ≡ true
      → (user_id ≡ u) × (course_id ≡ c) × (key ≡ k)
  supersedes-same u c k a o h = ground (arith, str_eq_iff a.course_id c, str_eq_iff a.exercise_id k)

  reopened-IsSingle :
      (a : Attempt) (attempts : List Attempt)
      → OfKey a
      → IsSingle attempts
      → IsSingle (reopened user_id course_id key a attempts)
  reopened-IsSingle a attempts o single u c k =
      rw
        (count_if-append (supersedes u c k) (abandon (supersedes user_id course_id key) attempts)
          (a ∷ []))
        (elim (Bool-cases (supersedes u c k a)) [
          | inl e ↦
              let (eu, ec, ek) = supersedes-same u c k a o e in
              rw (← eu, ← ec, ← ek) (ground (arith, abandon-none attempts))
          | inr e ↦ rw e (omega (arith, abandon-le u c k attempts, single u c k))
        ])

  -- The new attempt is the one that is open.
  reopened_once :
      (a : Attempt) (attempts : List Attempt)
      → supersedes user_id course_id key a ≡ true
      → count_if (supersedes user_id course_id key) (reopened user_id course_id key a attempts) ≡ 1
  reopened_once a attempts e =
      rw
        (count_if-append (supersedes user_id course_id key)
          (abandon (supersedes user_id course_id key) attempts) (a ∷ []))
        (rw e (omega (arith, abandon-none attempts)))

  -- Exam questions are left as they are.
  reopened-select :
      (a : Attempt) (attempts : List Attempt)
      → is_practice a ≡ true
      → select (λ x. not (is_practice x)) (reopened user_id course_id key a attempts)
        ≡ select (λ x. not (is_practice x)) attempts
  reopened-select a attempts e =
      rw
        (
          select-append (λ x. not (is_practice x))
              (abandon (supersedes user_id course_id key) attempts) (a ∷ []),
          e,
          append-nil (
              select (λ x. not (is_practice x))
                (abandon (supersedes user_id course_id key) attempts)),
        )
        (select-map_same (λ x. not (is_practice x)) _ attempts
          (All-intro _ attempts (λ x. ground arith)))

module _ {Config : Type 0} (platform : Platform Config) (registry : CourseRegistry Config) (db : Db)
    (user_id : ℕ) (exercise_id locale : String) (random new_id now : ℕ) where
  -- The rows after a success, by the key of the new attempt.
  abbrev pub Created : OpenedAttempt → Db → Type 0
  Created o db' =
      (exercise_key registry exercise_id ≡ ok o.attempt.exercise_id)
      × (o.attempt.user_id ≡ user_id)
      × (o.attempt.course_id ≡ slug registry)
      × (supersedes user_id (slug registry) o.attempt.exercise_id o.attempt ≡ true)
      × (db'.attempts
          ≡ reopened user_id (slug registry) o.attempt.exercise_id o.attempt db.attempts)
      × (db'.exam_sessions ≡ db.exam_sessions)

  pub create_cases :
      (o : OpenedAttempt) (db' : Db)
      → create platform registry db user_id exercise_id locale random new_id now ≡ ok (o, db')
      → Created o db'
  create_cases o db' h = (
    ground arith,
    ground arith,
    ground arith,
    ground (arith, str_eq_self (slug registry), str_eq_self o.attempt.exercise_id),
    ground arith,
    ground arith,
  )

  -- However the call ends, no user has two open practice attempts at one exercise if none had before.
  pub open_attempt-IsSingle :
      IsSingle db.attempts
      → IsSingle
          (open_attempt platform registry db user_id exercise_id locale random new_id
            now).1.attempts
  unfolding open_attempt
  open_attempt-IsSingle single =
      elim (Result-cases
        (create platform registry db user_id exercise_id locale random new_id now)) [
          | inl ((o, db'), e) ↦
              let (_, eu, ec, _, rows, _) = create_cases o db' e in
              rw (e, rows)
                (reopened-IsSingle user_id (slug registry) o.attempt.exercise_id o.attempt
                  db.attempts (eu, ec, refl) single)
          | inr (f, e) ↦ rw e single
        ]

  -- A successful call leaves exactly one open practice attempt of the user at the exercise, and every
  -- exam question and every exam session as it was.
  pub open_attempt-once :
      (o : OpenedAttempt)
      → (open_attempt platform registry db user_id exercise_id locale random new_id now).0 ≡ ok o
      → let db' =
          (open_attempt platform registry db user_id exercise_id locale random new_id now).1 in
        (count_if (supersedes user_id (slug registry) o.attempt.exercise_id) db'.attempts ≡ 1)
        × (select (λ a. not (is_practice a)) db'.attempts
            ≡ select (λ a. not (is_practice a)) db.attempts)
        × (db'.exam_sessions ≡ db.exam_sessions)
  unfolding open_attempt
  open_attempt-once o h =
      let (db', e, same) =
        commit-eq-ok db (create platform registry db user_id exercise_id locale random new_id now) o
          h in
      let (_, _, _, opened, rows, sessions) = create_cases o db' e in
      rw (same, sessions, rows)
        (
          reopened_once user_id (slug registry) o.attempt.exercise_id o.attempt db.attempts opened,
          reopened-select user_id (slug registry) o.attempt.exercise_id o.attempt db.attempts
              (ground arith),
          refl,
        )
