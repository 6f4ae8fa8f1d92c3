-- ===== src/Exams/Blocks.antt =====
-- backend/src/tradeschool/exams/service.py, `submit_exam`: the tallies by block, and those of the exam.
use tradeschool.Base.{
  ℕ, suc, ◌+◌, String, ◌≡◌, refl, subst, sym, ◌∙◌, Bool, true, false, some, List, [], ◌∷◌, ◌++◌,
  arith, length, map, sum_by, contains, contains-nil, Distinct, traverse, ok, Result-cases, inl,
  inr, bind_inverse, ok_injective, Bool-cases, Option-cases, ◌>>=◌,
}
use tradeschool.Base.Dict.{lookup, insert, has_key}
use tradeschool.Base.Sort.{sort_by}
use tradeschool.Content.Registry.{CourseRegistry, block_title}
use tradeschool.Exercises.Generator.{Platform}
use tradeschool.Store.{Attempt, ExamSession, ExamResult, BlockScore, Db, get_session}
use tradeschool.Exams.{attempts_of, canonical_place}
use tradeschool.Exams.Submit.{
  Tally, empty_tally, one_if, enter_block, count_question, location_of, noted, graded_correct,
  tally_one, tally_all, block_score, exam_result, grade_exam,
}
use tradeschool.Exams.Closed.{get_session-graded}
use tradeschool.Exams.Scores.{
  tally_one_cases, tally_one-counts, tally_all-counts, exam_result-totals, grade_exam_cases,
}
use tradeschool.Exams.Sums.{
  value, sum_of, last_contained, Distinct-append, has_key-enter, sum-enter, has_key-increase,
  sum-increase,
}

-- The sums by block, over the blocks that were entered: of `n` questions, of which `c` are correct.
record IsBalanced (n c : ℕ) (t : Tally) : Type 0 where
  once : Distinct t.block_order
  totals_in : (b : String) → has_key b t.block_total ≡ contains b t.block_order
  corrects_in : (b : String) → has_key b t.block_correct ≡ contains b t.block_order
  totals : sum_of t.block_total t.block_order ≡ n
  corrects : sum_of t.block_correct t.block_order ≡ c

empty-IsBalanced : (attempts : List Attempt) → IsBalanced 0 0 (empty_tally attempts)
unfolding lookup
empty-IsBalanced attempts = record {
  once = tt;
  totals_in = λ b. sym (contains-nil b);
  corrects_in = λ b. sym (contains-nil b);
  totals = refl;
  corrects = refl;
}

module _ {Config : Type 0} (platform : Platform Config) (registry : CourseRegistry Config)
    (locale : String) (now : ℕ) where
  -- What is written for a new block.
  entered :
      (b : String) (t t' : Tally)
      → has_key b t.block_total ≡ false
      → enter_block platform registry locale now b t ≡ ok t'
      → (t'.block_order ≡ t.block_order ++ b ∷ [])
        × (t'.block_total ≡ insert b 0 t.block_total)
        × (t'.block_correct ≡ insert b 0 t.block_correct)
  entered b t t' e h = elim (Result-cases (block_title registry b locale)) [
    | inr (f, k) ↦ absurd (ground arith)
    | inl (title, k) ↦ (ground arith, ground arith, ground arith)
  ]

  -- What is written for one more question of a block.
  counted :
      (b : String) (is_correct : Bool) (t t' : Tally)
      → count_question platform registry locale now b is_correct t ≡ ok t'
      → (total : ℕ) × (correct : ℕ) × (lookup b t.block_total ≡ some total)
        × (lookup b t.block_correct ≡ some correct)
        × (t'.block_order ≡ t.block_order)
        × (t'.block_total ≡ insert b (total + 1) t.block_total)
        × (t'.block_correct ≡ insert b (correct + one_if is_correct) t.block_correct)
  counted b is_correct t t' h = elim (Option-cases (lookup b t.block_total)) [
    | inl e ↦ absurd (ground arith)
    | inr (total, e) ↦ elim (Option-cases (lookup b t.block_correct)) [
      | inl k ↦ absurd (ground arith)
      | inr (correct, k) ↦ (total, correct, e, k, ground arith, ground arith, ground arith)
    ]
  ]

  enter_block-IsBalanced :
      (n c : ℕ) (b : String) (t t' : Tally)
      → IsBalanced n c t
      → enter_block platform registry locale now b t ≡ ok t'
      → IsBalanced n c t' × (contains b t'.block_order ≡ true)
  enter_block-IsBalanced n c b t t' i h = elim (Bool-cases (has_key b t.block_total)) [
    | inl e ↦
        let same : t ≡ t' = ground arith in
        (subst (IsBalanced n c) same i, ground (arith, i.totals_in b))
    | inr e ↦
        let new : contains b t.block_order ≡ false = sym (i.totals_in b) ∙ e in
        let (order, total, correct) = entered b t t' e h in
        (
          record {
            once = rw order (Distinct-append t.block_order b i.once new);
            totals_in = λ j.
                rw (order, total) (has_key-enter b j t.block_order t.block_total (i.totals_in j));
            corrects_in = λ j.
                rw (order, correct)
                  (has_key-enter b j t.block_order t.block_correct (i.corrects_in j));
            totals = rw (order, total) (sum-enter b t.block_order t.block_total new) ∙ i.totals;
            corrects =
                rw (order, correct) (sum-enter b t.block_order t.block_correct new) ∙ i.corrects;
          },
          rw order (last_contained b t.block_order),
        )
  ]

  count_question-IsBalanced :
      (n c : ℕ) (b : String) (is_correct : Bool) (t t' : Tally)
      → IsBalanced n c t
      → contains b t.block_order ≡ true
      → count_question platform registry locale now b is_correct t ≡ ok t'
      → IsBalanced (suc n) (c + one_if is_correct) t'
  count_question-IsBalanced n c b is_correct t t' i e h =
      let (total, correct, has, has', order, totals, corrects) = counted b is_correct t t' h in
      record {
        once = rw order i.once;
        totals_in = λ j.
            rw (order, totals)
              (has_key-increase b j (total + 1) t.block_order t.block_total e (i.totals_in j));
        corrects_in = λ j.
            rw (order, corrects)
              (has_key-increase b j (correct + one_if is_correct) t.block_order t.block_correct e
                (i.corrects_in j));
        totals =
            rw (order, totals)
              (omega
                (arith, i.totals, sum-increase b 1 total t.block_total t.block_order i.once e has));
        corrects =
            rw (order, corrects)
              (omega (
                arith,
                i.corrects,
                sum-increase b (one_if is_correct) correct t.block_correct t.block_order i.once e
                    has',
              ));
      }

  tally_one-IsBalanced :
      (n : ℕ) (t t' : Tally) (a : Attempt)
      → IsBalanced n t.correct_total t
      → tally_one platform registry locale now t a ≡ ok t'
      → IsBalanced (suc n) t'.correct_total t'
  tally_one-IsBalanced n t t' a i h =
      let (score, middle, e, k) = tally_one_cases platform registry locale now t t' a h in
      let b_id = (location_of platform registry locale now a).0 in
      let noted_t = noted platform registry locale now t a score in
      let begun : IsBalanced n t.correct_total noted_t = record {
        once = i.once;
        totals_in = i.totals_in;
        corrects_in = i.corrects_in;
        totals = i.totals;
        corrects = i.corrects;
      } in
      let (j, inside) = enter_block-IsBalanced n t.correct_total b_id noted_t middle begun e in
      subst (λ c. IsBalanced (suc n) c t')
        (sym (tally_one-counts platform registry locale now t t' a h).0)
        (count_question-IsBalanced n t.correct_total b_id
          (graded_correct platform registry locale now a) middle t' j inside k)

  tally_all-IsBalanced :
      (n : ℕ) (t t' : Tally) (xs : List Attempt)
      → IsBalanced n t.correct_total t
      → tally_all platform registry locale now t xs ≡ ok t'
      → IsBalanced (n + length xs) t'.correct_total t'
  unfolding tally_all
  tally_all-IsBalanced n t t' [] i h =
      subst (λ u. IsBalanced (n + 0) u.correct_total u) (ok_injective h)
        (subst (λ m. IsBalanced m t.correct_total t) (omega arith) i)
  tally_all-IsBalanced n t t' (x ∷ xs) i h =
      let (t₁, rest, one) =
        bind_inverse (λ t₁. tally_all platform registry locale now t₁ xs)
          (tally_one platform registry locale now t x) h in
      subst (λ m. IsBalanced m t'.correct_total t') (omega arith)
        (tally_all-IsBalanced (suc n) t₁ t' xs (tally_one-IsBalanced n t t₁ x i one) rest)

  block_score-fields :
      (t : Tally) (b : String) (s : BlockScore)
      → block_score platform registry locale now t b ≡ ok s
      → (s.block_id ≡ b) × (s.total ≡ value t.block_total b) × (s.correct ≡ value t.block_correct b)
  unfolding block_score
  block_score-fields t b s h = (ground arith, ground arith, ground arith)

  block_scores-sums :
      (t : Tally) (order : List String) (blocks : List BlockScore)
      → traverse (block_score platform registry locale now t) order ≡ ok blocks
      → (map (λ b. b.block_id) blocks ≡ order)
        × (sum_by (λ b. b.total) blocks ≡ sum_of t.block_total order)
        × (sum_by (λ b. b.correct) blocks ≡ sum_of t.block_correct order)
  block_scores-sums t [] blocks h = (ground arith, ground arith, ground arith)
  block_scores-sums t (b ∷ order) blocks h =
      let rest_scores = traverse (block_score platform registry locale now t) order in
      let (s, h₁, one) =
        bind_inverse (λ s. rest_scores >>= λ rest. ok (s ∷ rest))
          (block_score platform registry locale now t b) h in
      let (rest, h₂, others) = bind_inverse (λ rest. ok (s ∷ rest)) rest_scores h₁ in
      let (ids, totals, corrects) = block_scores-sums t order rest others in
      let (id, total, correct) = block_score-fields t b s one in
      subst
        (λ bs.
          (map (λ b. b.block_id) bs ≡ b ∷ order)
          × (sum_by (λ b. b.total) bs ≡ sum_of t.block_total (b ∷ order))
          × (sum_by (λ b. b.correct) bs ≡ sum_of t.block_correct (b ∷ order)))
        (ok_injective h₂)
        (cc (id, ids), omega (arith, total, totals), omega (arith, correct, corrects))

  exam_result-blocks :
      (t : Tally) (result : ExamResult)
      → exam_result platform registry locale now t ≡ ok result
      → traverse (block_score platform registry locale now t) t.block_order ≡ ok result.blocks
  unfolding exam_result
  exam_result-blocks t result h = ground arith

  -- In the result of the session that a submission stores no block stands twice, and the questions and the correct ones of the
  -- blocks add up to those of the exam.
  pub grade_exam-blocks :
      (db db' : Db) (user_id exam_id : ℕ) (course_id : String) (exam : ExamSession)
      → grade_exam platform registry locale now db user_id exam_id course_id ≡ ok (exam, db')
      → (result : ExamResult) × (get_session db' exam_id ≡ some exam)
        × (exam.rules.result ≡ some result)
        × Distinct (map (λ b. b.block_id) result.blocks)
        × (sum_by (λ b. b.total) result.blocks ≡ result.total)
        × (sum_by (λ b. b.correct) result.blocks ≡ result.correct)
  grade_exam-blocks db db' user_id exam_id course_id exam h =
      let (t, result, tally, made, stored) =
        grade_exam_cases platform registry locale now db db' user_id exam_id course_id exam h in
      let questions = sort_by (canonical_place registry) (attempts_of db exam_id) in
      let i =
        tally_all-IsBalanced 0 (empty_tally db.attempts) t questions (empty-IsBalanced db.attempts)
          tally in
      let (_, rows) = tally_all-counts platform registry locale now _ t questions tally in
      let (correct, total) = exam_result-totals platform registry locale now t result made in
      let (ids, sum, sum_correct) =
        block_scores-sums t t.block_order result.blocks (exam_result-blocks t result made) in
      (
        result,
        (get_session-graded platform registry locale now db db' user_id exam_id course_id exam h).0,
        stored,
        subst Distinct (sym ids) i.once,
        omega (arith, sum, i.totals, rows, total),
        omega (arith, sum_correct, i.corrects, correct),
      )
