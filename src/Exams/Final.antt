-- ===== src/Exams/Final.antt =====
-- All requests that change attempts, backend/src/tradeschool/attempts/service.py and exams/service.py, as
-- steps: an answered practice attempt stays as it is.
use tradeschool.Base.{
  ℕ, ◌≤◌, String, ◌≡◌, ◌≢◌, ap, ◌∙◌, Bool, true, false, Option, some, List, [], ◌∷◌, ◌++◌, map, All,
  find, find_holds, find-map_ne, select, count_if, arith, Bool-cases, inl, inr, ◌==◌, if◌then◌else◌,
}
use tradeschool.Base.Counts.{count_if-map_eq, find_only, find-append}
use tradeschool.Store.{
  Attempt, AttemptState, is_answered, is_practice, in_session, ExamSession, Db, put_attempt,
}
use tradeschool.Attempts
use tradeschool.Attempts.{
  open_attempt, submit_answer, grade_open, supersedes, OpenedAttempt, create,
}
use tradeschool.Exams.{abandon, abandon_of}
use tradeschool.Exams.Start.{close_same_scope, same_scope}

abbrev has_id : ℕ → Attempt → Bool
has_id i a = a.id == i

-- The primary key: at most one row of each id.
abbrev pub HasSingleIds : List Attempt → Type 0
HasSingleIds attempts = (i : ℕ) → count_if (λ (a : Attempt). a.id == i) attempts ≤ 1

-- A row is there, under its id.
abbrev pub IsKept : Attempt → List Attempt → Type 0
IsKept b attempts = HasSingleIds attempts × (find (λ (a : Attempt). a.id == b.id) attempts ≡ some b)

module _ (b : Attempt) (practice : is_practice b ≡ true) (done : is_answered b.state ≡ true) where
  map-IsKept :
      (f : Attempt → Attempt) (attempts : List Attempt)
      → ((a : Attempt) → (f a).id ≡ a.id)
      → f b ≡ b
      → IsKept b attempts
      → IsKept b (map f attempts)
  map-IsKept f attempts same fixed kept = (
    (λ i.
        omega
          (arith, kept.0 i, count_if-map_eq (has_id i) f attempts (λ a. ground (arith, same a)))),
    find-map_ne (has_id b.id) f attempts (λ a. ground (arith, same a))
        ∙ ground (arith, kept.1, fixed),
  )

  pub put-IsKept :
      (a : Attempt) (attempts : List Attempt)
      → (a.id == b.id) ≡ false
      → IsKept b attempts
      → IsKept b (put_attempt a attempts)
  put-IsKept a attempts other kept =
      map-IsKept (λ x. if x.id == a.id then a else x) attempts (λ x. ground arith)
        (ground (arith, other)) kept

  -- Another row that differs in its state or its session has another id.
  pub other-id :
      (a : Attempt) (attempts : List Attempt) (i : ℕ)
      → IsKept b attempts
      → find (has_id i) attempts ≡ some a
      → a ≢ b
      → (a.id == b.id) ≡ false
  other-id a attempts i kept found n = elim (Bool-cases (a.id == b.id)) [
    | inr e ↦ e
    | inl e ↦
        let here = find_holds (has_id i) attempts a found in
        let same : b.id ≡ i = ground (arith, e, here) in
        absurd (n (ground (arith, found, kept.1, ap (λ k. find (has_id k) attempts) same)))
  ]

  pub in_session-id :
      (attempts : List Attempt) (exam_id : ℕ)
      → IsKept b attempts
      → All (λ (a : Attempt). (a.id == b.id) ≡ false) (select (in_session exam_id) attempts)
  in_session-id attempts exam_id kept =
      outside attempts (find_only (has_id b.id) attempts b (kept.0 b.id) kept.1)
    where
      apart :
          (a : Attempt)
          → in_session exam_id a ≡ true
          → ((a.id == b.id) ≡ true → a ≡ b)
          → (a.id == b.id) ≡ false
      apart a s only = elim (Bool-cases (a.id == b.id)) [
        | inr e ↦ e
        | inl e ↦ absurd (ground (arith, practice, s, ap (in_session exam_id) (only e)))
      ]

      outside :
          (rows : List Attempt)
          → All (λ (a : Attempt). (a.id == b.id) ≡ true → a ≡ b) rows
          → All (λ (a : Attempt). (a.id == b.id) ≡ false) (select (in_session exam_id) rows)
      outside [] h = tt
      outside (a ∷ rows) h = elim (Bool-cases (in_session exam_id a)) [
        | inr s ↦ rw s (outside rows h.1)
        | inl s ↦ rw s (apart a s h.0, outside rows h.1)
      ]

  pub abandon_of-IsKept :
      (exam_id : ℕ) (attempts : List Attempt)
      → IsKept b attempts
      → IsKept b (abandon_of exam_id attempts)
  abandon_of-IsKept exam_id attempts kept =
      map-IsKept
        (λ a. if in_session exam_id a then record a { state = AttemptState.abandoned } else a)
        attempts (λ a. ground arith) (ground (arith, practice)) kept

  pub close_same_scope-IsKept :
      (now : ℕ) (scope : String) (block_id : Option String) (db : Db) (sessions : List ExamSession)
      → IsKept b db.attempts
      → IsKept b (close_same_scope now scope block_id db sessions).attempts
  unfolding close_same_scope abandon
  close_same_scope-IsKept now scope block_id db [] kept = kept
  close_same_scope-IsKept now scope block_id db (s ∷ sessions) kept =
      close_same_scope-IsKept now scope block_id
        (if same_scope scope block_id s then abandon now db s else db) sessions
        (elim (Bool-cases (same_scope scope block_id s)) [
          | inl e ↦ rw e (abandon_of-IsKept s.id db.attempts kept)
          | inr e ↦ rw e kept
        ])

  -- Rows that are added leave it there, if the primary key accepts them.
  pub append-IsKept :
      (attempts rows : List Attempt)
      → IsKept b attempts
      → HasSingleIds (attempts ++ rows)
      → IsKept b (attempts ++ rows)
  append-IsKept attempts rows kept single =
      (single, find-append (has_id b.id) attempts rows ∙ ground (arith, kept.1))

  pub abandon-IsKept :
      (user_id : ℕ) (course_id key : String) (attempts : List Attempt)
      → IsKept b attempts
      → IsKept b (Attempts.abandon (supersedes user_id course_id key) attempts)
  abandon-IsKept user_id course_id key attempts kept =
      map-IsKept _ attempts (λ a. ground arith) (ground (arith, done)) kept
