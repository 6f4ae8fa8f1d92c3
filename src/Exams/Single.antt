-- ===== src/Exams/Single.antt =====
-- backend/src/tradeschool/exams/service.py, `start_exam`: the open exams of a scope.
use tradeschool.Base.{
  ℕ, ◌==◌, String, ◌≡◌, refl, sym, ◌∙◌, subst, Bool, true, false, ◌&&◌, ◌||◌, Option, none, List,
  [], ◌∷◌, ◌++◌, reverse, arith, any, All, All-map_left, select, count_if, count_if-append,
  if◌then◌else◌, str_eq, str_eq_iff, str_eq_self, opt_str_eq_iff, Bool-cases, inl, inr, ok,
  Result-cases,
}
use tradeschool.Base.Sort.{sort_by, sort_by-perm}
use tradeschool.Content.Registry.{CourseRegistry}
use tradeschool.Exercises.Generator.{Platform}
use tradeschool.Store.{ExamSession, is_open_exam, Db, put_session}
use tradeschool.Exams.{abandon, is_unfinished, open_sessions, scope_modules}
use tradeschool.Exams.Start.{
  Draws, same_scope, close_same_scope, assembled, assemble, check_scope, questions,
}
use mathlib.Core.List.{Permᴰ, reverse-cons}

-- The open exams of a user in a course, of one scope.
abbrev pub is_open_of : ℕ → String → String → Option String → ExamSession → Bool
is_open_of user_id course_id scope block_id s =
    s.user_id == user_id
    && str_eq s.course_id course_id
    && is_open_exam s.rules.status
    && same_scope scope block_id s

-- An open exam has no time of its end.
abbrev pub IsUnfinished : ExamSession → Type 0
IsUnfinished s = is_open_exam s.rules.status ≡ true → s.finished_at ≡ none

module _ {A : Type 0} where
  any-perm : (p : A → Bool) {xs ys : List A} → Permᴰ xs ys → any p xs ≡ any p ys
  any-perm p Permᴰ.nil = refl
  any-perm p (Permᴰ.cons {a} {b} {l₁} {l₂} e q) = rw (e, any-perm p q) refl
  any-perm p (Permᴰ.swap {a} {b} {a'} {b'} {l} e f) = ground (arith, e, f)
  any-perm p (Permᴰ.trans q r) = any-perm p q ∙ any-perm p r

  any-append : (p : A → Bool) (xs ys : List A) → any p (xs ++ ys) ≡ (any p xs || any p ys)
  any-append p [] ys = refl
  any-append p (x ∷ xs) ys = ground (arith, any-append p xs ys)

  any-reverse : (p : A → Bool) (xs : List A) → any p (reverse xs) ≡ any p xs
  any-reverse p [] = refl
  any-reverse p (x ∷ xs) =
      rw (reverse-cons x xs, any-append p (reverse xs) (x ∷ []), any-reverse p xs) (ground arith)

  any-select :
      (p keep : A → Bool) (xs : List A) → any p (select keep xs) ≡ any (λ x. keep x && p x) xs
  any-select p keep [] = refl
  any-select p keep (x ∷ xs) = ground (arith, any-select p keep xs)

  any-same : (p q : A → Bool) (xs : List A) → ((x : A) → p x ≡ q x) → any p xs ≡ any q xs
  any-same p q [] h = refl
  any-same p q (x ∷ xs) h = rw (h x, any-same p q xs h) refl

module _ (user_id : ℕ) (course_id scope : String) (block_id : Option String) where
  abbrev test : ExamSession → Bool
  test = is_open_of user_id course_id scope block_id

  -- An exam that closing is going to reach.
  abbrev reaches : List ExamSession → ExamSession → Bool
  reaches ss x = any (λ s. s.id == x.id && same_scope scope block_id s) ss

  abbrev IsReached : List ExamSession → ExamSession → Type 0
  IsReached ss x = test x ≡ true → reaches ss x ≡ true

  unreached-none : (xs : List ExamSession) → All (IsReached []) xs → count_if test xs ≡ 0
  unreached-none [] h = refl
  unreached-none (x ∷ xs) h = elim (Bool-cases (test x)) [
    | inl e ↦ cc (h.0 e)
    | inr e ↦ rw e (omega (arith, unreached-none xs h.1))
  ]

  -- A session that is closed is reached no more, and no other one has its id.
  put_session-IsReached :
      (s closed : ExamSession) (ss xs : List ExamSession)
      → closed.id ≡ s.id
      → test closed ≡ false
      → All (IsReached (s ∷ ss)) xs
      → All (IsReached ss) (put_session closed xs)
  put_session-IsReached s closed ss [] e c h = tt
  put_session-IsReached s closed ss (x ∷ xs) e c h = (
    elim (Bool-cases (x.id == closed.id)) [
      | inl y ↦ rw y (λ t. cc (c, t))
      | inr n ↦ rw n (λ t. let r = h.0 t in ground arith)
    ],
    put_session-IsReached s closed ss xs e c h.1,
  )

  close-none :
      (now : ℕ) (db : Db) (ss : List ExamSession)
      → All (IsReached ss) db.exam_sessions
      → count_if test (close_same_scope now scope block_id db ss).exam_sessions ≡ 0
  unfolding close_same_scope abandon
  close-none now db [] h = unreached-none db.exam_sessions h
  close-none now db (s ∷ ss) h =
      let done =
        λ (d : Db). count_if test (close_same_scope now scope block_id d ss).exam_sessions ≡ 0 in
      elim (Bool-cases (same_scope scope block_id s)) [
        | inl e ↦
            let step : (if same_scope scope block_id s then abandon now db s else db)
                ≡ abandon now db s =
              rw e refl in
            subst done (sym step) (
              close-none now (abandon now db s) ss
                (put_session-IsReached s _ ss db.exam_sessions refl (ground arith) h))
        | inr e ↦
            let step : (if same_scope scope block_id s then abandon now db s else db) ≡ db =
              rw e refl in
            subst done (sym step) (
              close-none now db ss (
                All-map_left (IsReached (s ∷ ss)) (IsReached ss) db.exam_sessions
                  (λ x r t. let k = r t in ground arith) h))
      ]

  -- Every open exam of the scope is among those that are read.
  open_sessions-IsReached :
      (db : Db) (xs : List ExamSession)
      → ((p : ExamSession → Bool)
          → any p
              (select (λ s. is_unfinished user_id course_id s && is_open_exam s.rules.status) xs)
            ≡ true
          → any p (open_sessions db user_id course_id) ≡ true)
      → All IsUnfinished xs
      → All (IsReached (open_sessions db user_id course_id)) xs
  open_sessions-IsReached db [] g h = tt
  open_sessions-IsReached db (x ∷ xs) g h = (
    (λ t.
        let f = h.0 (ground arith) in
        g (λ s. s.id == x.id && same_scope scope block_id s)
          (ground (arith, str_eq_iff x.course_id course_id))),
    open_sessions-IsReached db xs (λ p a. g p (ground arith)) h.1,
  )

  any-open_sessions :
      (db : Db) (p : ExamSession → Bool)
      → any p (
          select
            (λ s. is_unfinished user_id course_id s && is_open_exam s.rules.status)
            db.exam_sessions)
        ≡ any p (open_sessions db user_id course_id)
  unfolding open_sessions
  any-open_sessions db p =
      let rows = select (is_unfinished user_id course_id) db.exam_sessions in
      let sorted = sort_by (λ (s : ExamSession). s.created_at) rows in
      let keep = λ (s : ExamSession). is_open_exam s.rules.status && p s in
      any-select p (λ s. is_unfinished user_id course_id s && is_open_exam s.rules.status)
        db.exam_sessions
      ∙ any-same _ _ db.exam_sessions (λ s. ground arith)
      ∙ sym (any-select keep (is_unfinished user_id course_id) db.exam_sessions)
      ∙ sym (any-perm keep (sort_by-perm (λ (s : ExamSession). s.created_at) rows))
      ∙ sym (any-reverse keep sorted)
      ∙ sym (any-select p (λ (s : ExamSession). is_open_exam s.rules.status) (reverse sorted))

module _ {Config : Type 0} (platform : Platform Config) (registry : CourseRegistry Config)
    (draws : Draws) (user_id : ℕ) (course_id locale : String) (db : Db) (scope : String)
    (block_id : Option String) where
  -- Starting an exam, when it succeeds, leaves exactly one open exam of the user in the course of that
  -- scope, if open exams have no time of their end.
  pub assemble-once :
      All IsUnfinished db.exam_sessions
      → (exam : ExamSession) (db' : Db)
      → assemble platform registry draws user_id course_id locale db scope block_id ≡ ok (exam, db')
      → count_if
          (is_open_of user_id course_id exam.rules.scope exam.rules.block_id)
          db'.exam_sessions
        ≡ 1
  unfolding assemble
  assemble-once unfinished exam db' h = elim (Result-cases (check_scope registry scope block_id)) [
    | inr (f, e) ↦ absurd (ground arith)
    | inl (block, e) ↦ elim (Result-cases (scope_modules registry scope block)) [
      | inr (f, k) ↦ absurd (ground arith)
      | inl (modules, k) ↦
          elim (Result-cases
            (questions platform registry draws user_id course_id locale 0 modules)) [
              | inr (f, l) ↦ absurd (ground arith)
              | inl (qs, l) ↦
                  let open_list = open_sessions db user_id course_id in
                  let closed =
                    (close_same_scope draws.now scope block db open_list).exam_sessions in
                  let new : ExamSession =
                    assembled platform registry draws user_id course_id locale scope block qs in
                  let same : exam ≡ new = ground arith in
                  let rows : db'.exam_sessions ≡ closed ++ new ∷ [] = ground arith in
                  let test_new = is_open_of user_id course_id scope block in
                  let none_left = close-none user_id course_id scope block draws.now db open_list (
                    open_sessions-IsReached user_id course_id scope block db db.exam_sessions
                      (λ p a. sym (any-open_sessions user_id course_id scope block db p) ∙ a)
                      unfinished) in
                  let one_new : test_new new ≡ true =
                    ground (
                      arith,
                      str_eq_self course_id,
                      str_eq_self scope,
                      opt_str_eq_iff block block,
                    ) in
                  rw (rows, same, count_if-append test_new closed (new ∷ []))
                    (rw one_new (omega (arith, none_left)))
            ]
    ]
  ]
