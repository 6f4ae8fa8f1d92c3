-- ===== src/Exercises/Quiz/Kinds.antt =====
-- backend/src/tradeschool/exercises/quiz.py and reveal.py: grading the solution of a variant, for each kind.
use tradeschool.Base.{
  ℕ, String, ◌≡◌, refl, subst, Bool, true, Option, some, [], ◌∷◌, find, str_eq, str_eq_self, arith,
  ok, Result-cases, inl, inr, Option-cases, traverse, or_raise, key_error,
}
use tradeschool.Base.Dict.{lookup, insert_all}
use tradeschool.Base.Json.{Json, Object}
use tradeschool.Content.Schema.{get_text}
use tradeschool.Exercises.Generator.{GradeResult}
use tradeschool.Exercises.Quiz.{QuizKind, QuizOption, QuizVariant, check_kind}
use tradeschool.Exercises.Quiz.Dicts.{same_dict-insert_all}
use tradeschool.Exercises.Quiz.Instance.{to_items}
use tradeschool.Exercises.Quiz.Grade.{
  sorted_set, same_set, same_texts, same_dict, texts_answer, json_texts, json_pairs, text_pairs,
  correct_options, correct_ids, correct_order, correct_map, grade_kind, pairs_answer, json_answer,
  same_answer, bool_answer, text_answer, graded, item_texts, readable_pair,
}
use tradeschool.Exercises.Reveal.{submission_for}
use tradeschool.Exercises.Quiz.Submission.{
  texts_of-json_texts, same_texts_self, same_set-sorted_set, same_answer_self, lookup_first,
  submission_of_option, submission_of_options, submission_of_value, submission_of_order,
  submission_of_pairs, text_pairs-json_pairs, correct_map-Distinct,
}

module _ (draw : ℕ → ℕ → ℕ) (render : Json → String) (v : QuizVariant) (seed : ℕ) (answer : Object)
    (locale : String) (e : Option String) where
  -- What was graded first names a solution, and the solution grades as correct.
  abbrev pub IsSolved : QuizKind → GradeResult → Type 0
  IsSolved k r =
      (s : Object) × (submission_for r.correct_answer ≡ ok s)
      × (grade_kind draw render v seed s locale e k ≡ ok (record r { correct = true }))

  single_choice-IsSolved :
      (r : GradeResult)
      → grade_kind draw render v seed answer locale e QuizKind.single_choice ≡ ok r
      → IsSolved QuizKind.single_choice r
  single_choice-IsSolved r h = elim (Result-cases (text_answer (lookup "optionId" answer))) [
    | inr (f, k) ↦ absurd (ground arith)
    | inl (selected, k) ↦ elim (Option-cases (find (λ (o : QuizOption). o.correct) v.options)) [
      | inl n ↦ absurd (ground arith)
      | inr (o, n) ↦ elim (Result-cases (get_text o.text locale)) [
        | inr (f, t) ↦ absurd (ground arith)
        | inl (text, t) ↦
            let solution = ("optionId", Json.str o.id) ∷ ("text", Json.str text) ∷ [] in
            let same : graded (str_eq selected o.id) solution e ≡ r = ground arith in
            subst (IsSolved QuizKind.single_choice) same (
              ("optionId", Json.str o.id) ∷ [],
              submission_of_option (Json.str o.id) (Json.str text),
              rw (lookup_first "optionId" (Json.str o.id) [], n, t, str_eq_self o.id) refl,
            )
      ]
    ]
  ]

  multi_select-IsSolved :
      (r : GradeResult)
      → grade_kind draw render v seed answer locale e QuizKind.multi_select ≡ ok r
      → IsSolved QuizKind.multi_select r
  multi_select-IsSolved r h =
      let ids = correct_ids draw render v in
      elim (Result-cases (texts_answer (lookup "optionIds" answer))) [
        | inr (f, k) ↦ absurd (ground arith)
        | inl (selected, k) ↦
            elim (Result-cases (
              traverse (λ (o : QuizOption). get_text o.text locale)
                (correct_options draw render v))) [
                  | inr (f, t) ↦ absurd (ground arith)
                  | inl (texts, t) ↦
                      let solution =
                        ("optionIds", json_texts (sorted_set ids))
                        ∷ ("texts", json_texts texts)
                        ∷ [] in
                      let same : graded (same_set selected ids) solution e ≡ r = ground arith in
                      subst (IsSolved QuizKind.multi_select) same (
                        ("optionIds", json_texts (sorted_set ids)) ∷ [],
                        submission_of_options (json_texts (sorted_set ids)) (json_texts texts),
                        rw
                            (
                              lookup_first "optionIds" (json_texts (sorted_set ids)) [],
                              texts_of-json_texts (sorted_set ids),
                              t,
                              same_set-sorted_set ids,
                            )
                            refl,
                      )
                ]
      ]

  ordering-IsSolved :
      (r : GradeResult)
      → grade_kind draw render v seed answer locale e QuizKind.ordering ≡ ok r
      → IsSolved QuizKind.ordering r
  ordering-IsSolved r h =
      let order = correct_order draw render v in
      elim (Result-cases (texts_answer (lookup "order" answer))) [
        | inr (f, k) ↦ absurd (ground arith)
        | inl (given, k) ↦ elim (Result-cases (item_texts draw render v locale)) [
          | inr (f, l) ↦ absurd (ground arith)
          | inl (by_id, l) ↦
              elim (Result-cases (traverse (λ id. or_raise (lookup id by_id) key_error) order)) [
                | inr (f, t) ↦ absurd (ground arith)
                | inl (texts, t) ↦
                    let solution = ("order", json_texts order) ∷ ("texts", json_texts texts) ∷ [] in
                    let same : graded (same_texts given order) solution e ≡ r = ground arith in
                    subst (IsSolved QuizKind.ordering) same (
                      ("order", json_texts order) ∷ [],
                      submission_of_order (json_texts order) (json_texts texts),
                      rw
                          (
                            lookup_first "order" (json_texts order) [],
                            texts_of-json_texts order,
                            l,
                            t,
                            same_texts_self order,
                          )
                          refl,
                    )
              ]
        ]
      ]

  true_false-IsSolved :
      (r : GradeResult) (b : Bool)
      → v.answer ≡ some b
      → grade_kind draw render v seed answer locale e QuizKind.true_false ≡ ok r
      → IsSolved QuizKind.true_false r
  true_false-IsSolved r b a h = elim (Result-cases (bool_answer (lookup "value" answer))) [
    | inr (f, k) ↦ absurd (ground arith)
    | inl (value, k) ↦
        let solution = ("value", json_answer v.answer) ∷ [] in
        let same : graded (same_answer value v.answer) solution e ≡ r = ground arith in
        subst (IsSolved QuizKind.true_false) same (
          ("value", json_answer v.answer) ∷ [],
          submission_of_value (json_answer v.answer),
          rw (lookup_first "value" (json_answer v.answer) [], a, same_answer_self b) refl,
        )
  ]

  matching-IsSolved :
      (r : GradeResult)
      → grade_kind draw render v seed answer locale e QuizKind.matching ≡ ok r
      → IsSolved QuizKind.matching r
  matching-IsSolved r h = elim (Result-cases (pairs_answer (lookup "pairs" answer))) [
    | inr (f, k) ↦ absurd (ground arith)
    | inl (given, k) ↦ elim (Result-cases (correct_map draw render v seed)) [
      | inr (f, l) ↦ absurd (ground arith)
      | inl (d, l) ↦ elim (Result-cases (traverse (readable_pair draw render locale) v.pairs)) [
        | inr (f, t) ↦ absurd (ground arith)
        | inl (readable, t) ↦
            let solution =
              ("pairs", json_pairs d) ∷ ("readable", Json.arr (to_items readable)) ∷ [] in
            let same : graded (same_dict (insert_all (text_pairs render given) []) d) solution e
                ≡ r =
              ground arith in
            subst (IsSolved QuizKind.matching) same (
              ("pairs", json_pairs d) ∷ [],
              submission_of_pairs (json_pairs d) (Json.arr (to_items readable)),
              rw
                  (
                    lookup_first "pairs" (json_pairs d) [],
                    l,
                    t,
                    text_pairs-json_pairs render d,
                    same_dict-insert_all d (correct_map-Distinct draw render v seed d l),
                  )
                  refl,
            )
      ]
    ]
  ]

  -- A validated variant of any kind.
  pub grade_kind-IsSolved :
      (k : QuizKind) (r : GradeResult)
      → check_kind v k ≡ ok tt
      → grade_kind draw render v seed answer locale e k ≡ ok r
      → IsSolved k r
  grade_kind-IsSolved QuizKind.single_choice r c h = single_choice-IsSolved r h
  grade_kind-IsSolved QuizKind.multi_select r c h = multi_select-IsSolved r h
  grade_kind-IsSolved QuizKind.ordering r c h = ordering-IsSolved r h
  grade_kind-IsSolved QuizKind.matching r c h = matching-IsSolved r h
  grade_kind-IsSolved QuizKind.true_false r c h = elim (Option-cases v.answer) [
    | inl n ↦ absurd (ground arith)
    | inr (b, a) ↦ true_false-IsSolved r b a h
  ]
