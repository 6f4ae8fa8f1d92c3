-- ===== src/Exercises/Quiz/Solution.antt =====
-- backend/src/tradeschool/exercises/quiz.py and reveal.py: grading the solution of a quiz.
use tradeschool.Base.{
  ℕ, zero, suc, ◌%◌, length, get_elem?, String, ◌≡◌, refl, subst, true, some, List, [], ◌∷◌, arith,
  ok, Result-cases, inl, inr, All,
}
use tradeschool.Base.Json.{Json, Object}
use tradeschool.Exercises.Generator.{GradeResult}
use tradeschool.Exercises.Quiz.{QuizVariant, QuizConfig, check_kind, check_variant, variant}
use tradeschool.Exercises.Quiz.Grade.{grade_kind, grade, quiz_generator, explanation_of}
use tradeschool.Exercises.Reveal.{submission_for, reveal, dummy_answer}
use tradeschool.Exercises.Quiz.Kinds.{grade_kind-IsSolved}

some_injective : {A : Type 0} {a b : A} → some a ≡ some b → a ≡ b
some_injective h = cc h

chosen-All :
    {A : Type 0} (P : A → Type 0) (xs : List A) (i : ℕ) (a : A)
    → All P xs
    → get_elem? xs i ≡ some a
    → P a
chosen-All P [] i a h e = cc
chosen-All P (x ∷ xs) zero a h e = subst P (some_injective e) h.0
chosen-All P (x ∷ xs) (suc i) a h e = chosen-All P xs i a h.1 e

check_variant-kind : (v : QuizVariant) → check_variant v ≡ ok v → check_kind v v.kind ≡ ok tt
unfolding check_variant
check_variant-kind v h = elim (Result-cases (check_kind v v.kind)) [
  | inr (f, k) ↦ absurd (ground arith)
  | inl (_, k) ↦ k
]

module _ (draw : ℕ → ℕ → ℕ) (render : Json → String) (config : QuizConfig) (seed : ℕ)
    (locale : String) (payload : Object) where
  grade-IsSolved :
      (answer : Object) (first : GradeResult)
      → All (λ v. check_variant v ≡ ok v) config.variants
      → grade draw render config seed answer locale ≡ ok first
      → (s : Object) × (submission_for first.correct_answer ≡ ok s)
        × (grade draw render config seed s locale ≡ ok (record first { correct = true }))
  unfolding grade variant
  grade-IsSolved answer first valid h = elim (Result-cases (variant draw config seed)) [
    | inr (f, k) ↦ absurd (ground arith)
    | inl (v, k) ↦ elim (Result-cases (explanation_of v.explanation locale)) [
      | inr (f, l) ↦ absurd (ground arith)
      | inl (e, l) ↦
          let read : get_elem? config.variants (draw seed 0 % length config.variants) ≡ some v =
            ground arith in
          let checked =
            check_variant-kind v
              (chosen-All (λ v. check_variant v ≡ ok v) config.variants _ v valid read) in
          let graded_first : grade_kind draw render v seed answer locale e v.kind ≡ ok first =
            ground arith in
          let (s, named, solved) =
            grade_kind-IsSolved draw render v seed answer locale e v.kind first checked
              graded_first in
          (s, named, rw (k, l) solved)
    ]
  ]

  -- For validated variants the check of the solution cannot fail: whenever the placeholder answer can be
  -- graded, the revealed answer is the one that the solution names, and it grades as correct with the
  -- same solution.
  pub reveal-quiz_generator :
      (first : GradeResult)
      → All (λ v. check_variant v ≡ ok v) config.variants
      → grade draw render config seed (dummy_answer render payload) locale ≡ ok first
      → (s : Object) × (submission_for first.correct_answer ≡ ok s)
        × (reveal render (quiz_generator draw render) config seed locale payload
            ≡ ok (record { submission = s; result = record first { correct = true } }))
  unfolding reveal
  reveal-quiz_generator first valid h =
      let (s, named, solved) = grade-IsSolved (dummy_answer render payload) first valid h in
      (s, named, rw (h, named, solved) refl)
