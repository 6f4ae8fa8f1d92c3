-- ===== src/Exams/Questions.antt =====
-- backend/src/tradeschool/exams/service.py, `start_exam`: the questions of a new exam.
use tradeschool.Base.{
  ℕ, zero, suc, ◌%◌, get_elem?, contains, str_eq_iff, ◌∙◌, String, ◌≡◌, refl, subst, arith, Option,
  none, some, true, List, [], ◌∷◌, ◌++◌, map, length, All, Option-cases, inl, inr, ok, Result-cases,
  ok_injective,
}
use tradeschool.Content.Registry.{
  CourseRegistry, get_exercise_config, exercise_key, playable_module_exercises,
}
use tradeschool.Exercises.Generator.{Platform}
use tradeschool.Store.{Attempt, is_open, ExamSession, Db}
use tradeschool.Attempts.{seed_space, randbelow}
use tradeschool.Exams.{scope_modules, open_sessions}
use tradeschool.Exams.Start.{
  Draws, choose, check_scope, close_same_scope, question, questions, assembled, assemble,
}

-- A question that nobody has seen: open, unanswered and ungraded, of that exam and that learner.
abbrev pub IsNewQuestion : (exam_id user_id : ℕ) → String → Attempt → Type 0
IsNewQuestion exam_id user_id course_id a =
    (is_open a.state ≡ true)
    × (a.given_answer ≡ none)
    × (a.is_correct ≡ none)
    × (a.exam_session_id ≡ some exam_id)
    × (a.user_id ≡ user_id)
    × (a.course_id ≡ course_id)

-- A question about one of the playable exercises of a module, by its key.
abbrev pub IsDrawnFrom : {Config : Type 0} → CourseRegistry Config → String → Attempt → Type 0
IsDrawnFrom registry module_id a =
    (playable : List String) × (exercise_id : String) × (playable_module_exercises registry
        module_id
      ≡ ok playable)
    × (contains exercise_id playable ≡ true)
    × (exercise_key registry exercise_id ≡ ok a.exercise_id)

-- One question for each module, in the order of the modules.
abbrev pub AreDrawnFrom :
    {Config : Type 0} → CourseRegistry Config → List (String × String) → List Attempt → Type 0
AreDrawnFrom registry [] [] = Unit
AreDrawnFrom registry [] (_ ∷ _) = ⊥
AreDrawnFrom registry (_ ∷ _) [] = ⊥
AreDrawnFrom registry ((_, module_id) ∷ modules) (a ∷ qs) =
    IsDrawnFrom registry module_id a × AreDrawnFrom registry modules qs

get_elem?-contains :
    (xs : List String) (i : ℕ) (x : String) → get_elem? xs i ≡ some x → contains x xs ≡ true
unfolding contains
get_elem?-contains [] i x h = cc
get_elem?-contains (y ∷ ys) zero x h = ground (arith, h, str_eq_iff x y)
get_elem?-contains (y ∷ ys) (suc i) x h = ground (arith, get_elem?-contains ys i x h)

choose-contains :
    (xs : List String) (random : ℕ) (x : String) → choose xs random ≡ ok x → contains x xs ≡ true
choose-contains xs random x h = elim (Option-cases (get_elem? xs (random % length xs))) [
  | inl e ↦ absurd (ground (arith, e, h))
  | inr (y, e) ↦ get_elem?-contains xs (random % length xs) x (ground (arith, e, h))
]

module _ {Config : Type 0} (platform : Platform Config) (registry : CourseRegistry Config)
    (draws : Draws) (user_id : ℕ) (course_id locale : String) where
  question_made :
      (i : ℕ) (module_id : String) (a : Attempt)
      → question platform registry draws user_id course_id locale i module_id ≡ ok a
      → IsNewQuestion draws.exam_id user_id course_id a × IsDrawnFrom registry module_id a
  unfolding question
  question_made i module_id a h =
      elim (Result-cases (playable_module_exercises registry module_id)) [
        | inr (f, e) ↦ absurd (ground arith)
        | inl (playable, e) ↦ elim (Result-cases (choose playable (draws.choice i))) [
          | inr (f, k) ↦ absurd (ground arith)
          | inl (exercise_id, k) ↦ elim (Option-cases (get_exercise_config registry exercise_id)) [
            | inl l ↦ absurd (ground arith)
            | inr ((exercise_type, cfg), l) ↦
                let seed = randbelow seed_space (draws.seed i) in
                elim (Result-cases
                  ((platform.get_generator exercise_type).generate cfg seed locale)) [
                    | inr (f, m) ↦ absurd (ground arith)
                    | inl (instance_of, m) ↦
                        elim (Result-cases (exercise_key registry exercise_id)) [
                          | inr (f, n) ↦ absurd (ground arith)
                          | inl (key, n) ↦ (
                            (
                              ground arith,
                              ground arith,
                              ground arith,
                              ground arith,
                              ground arith,
                              ground arith,
                            ),
                            (
                              playable,
                              exercise_id,
                              e,
                              choose-contains playable (draws.choice i) exercise_id k,
                              n ∙ ground arith,
                            ),
                          )
                        ]
                  ]
          ]
        ]
      ]

  questions_made :
      (i : ℕ) (modules : List (String × String)) (qs : List Attempt)
      → questions platform registry draws user_id course_id locale i modules ≡ ok qs
      → All (IsNewQuestion draws.exam_id user_id course_id) qs × AreDrawnFrom registry modules qs
  unfolding questions
  questions_made i [] qs h =
      subst
        (λ qs. All (IsNewQuestion draws.exam_id user_id course_id) qs × AreDrawnFrom registry [] qs)
        (ok_injective h) (tt, tt)
  questions_made i ((b, module_id) ∷ modules) qs h =
      elim (Result-cases (question platform registry draws user_id course_id locale i module_id)) [
        | inr (f, e) ↦ absurd (ground arith)
        | inl (a, e) ↦
            elim (Result-cases
              (questions platform registry draws user_id course_id locale (suc i) modules)) [
                | inr (f, k) ↦ absurd (ground arith)
                | inl (rest, k) ↦
                    let (news, drawn) = questions_made (suc i) modules rest k in
                    let (new, from) = question_made i module_id a e in
                    let same : a ∷ rest ≡ qs = ground arith in
                    subst
                      (λ qs.
                        All (IsNewQuestion draws.exam_id user_id course_id) qs
                        × AreDrawnFrom registry ((b, module_id) ∷ modules) qs)
                      same ((new, news), (from, drawn))
              ]
      ]

  pub assemble-questions :
      (db db' : Db) (scope : String) (block_id : Option String) (exam : ExamSession)
      → assemble platform registry draws user_id course_id locale db scope block_id ≡ ok (exam, db')
      → (modules : List (String × String)) × (qs : List Attempt) × (scope_modules registry
            exam.rules.scope exam.rules.block_id
          ≡ ok modules)
        × (db'.attempts
            ≡ (close_same_scope draws.now exam.rules.scope exam.rules.block_id db
                (open_sessions db user_id course_id)).attempts
              ++ qs)
        × All (IsNewQuestion exam.id user_id course_id) qs
        × AreDrawnFrom registry modules qs
        × (exam.rules.question_order ≡ some (map (λ a. a.exercise_id) qs))
  unfolding assemble
  assemble-questions db db' scope block_id exam h =
      elim (Result-cases (check_scope registry scope block_id)) [
        | inr (f, e) ↦ absurd (ground arith)
        | inl (block, e) ↦ elim (Result-cases (scope_modules registry scope block)) [
          | inr (f, k) ↦ absurd (ground arith)
          | inl (modules, k) ↦
              elim (Result-cases
                (questions platform registry draws user_id course_id locale 0 modules)) [
                  | inr (f, l) ↦ absurd (ground arith)
                  | inl (qs, l) ↦
                      let (news, drawn) = questions_made 0 modules qs l in
                      let new : ExamSession =
                        assembled platform registry draws user_id course_id locale scope block qs in
                      let same : exam ≡ new = ground arith in
                      rw same (modules, qs, k, ground arith, news, drawn, refl)
                ]
        ]
      ]
