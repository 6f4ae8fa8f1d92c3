-- ===== src/Enrollment/Selected.antt =====
-- backend/src/tradeschool/enrollment/service.py: the rows that saving leaves.
use tradeschool.Base.{
  ℕ, ◌≤◌, ◌==◌, String, ◌≡◌, refl, Bool, true, false, not, ◌&&◌, Option, none, some, List, [], ◌∷◌,
  ◌++◌, map, arith, count_if, count_if-append, count_if-map_le, contains, contains-cons,
  if◌then◌else◌, str_eq_iff, str_eq_self, opt_str_eq_iff, is_some, Bool-cases, Option-cases, inl,
  inr, ok, Result-cases,
}
use tradeschool.Base.Dict.{Dict, keys}
use tradeschool.Content.Registry.{slug}
use tradeschool.Enrollment.{alphabetical, UserCourse, Unicode, Catalog, is_row, rows_of, row_at}
use tradeschool.Enrollment.State.{
  saved, blank_row, fresh, write_rows, save_rows, save_state, validate, effective_of,
}

-- No user has two rows for one course.
abbrev pub HasSingleRows : List UserCourse → Type 0
HasSingleRows table =
    (user_id : ℕ) (course_id : String) → count_if (is_row user_id course_id) table ≤ 1

abbrev pub is_selected_of : ℕ → UserCourse → Bool
is_selected_of user_id row = row.user_id == user_id && row.selected

-- No user has two selected courses: the partial unique index of the table.
abbrev pub HasSingleSelection : List UserCourse → Type 0
HasSingleSelection table = (user_id : ℕ) → count_if (is_selected_of user_id) table ≤ 1

count_if-le_of :
    {A : Type 0} (p q : A → Bool) (xs : List A)
    → ((x : A) → p x ≡ true → q x ≡ true)
    → count_if p xs ≤ count_if q xs
count_if-le_of p q [] h = omega arith
count_if-le_of p q (x ∷ xs) h = ground (arith, h x, count_if-le_of p q xs h)

-- A course without a row of the user.
row_at-count :
    (user_id : ℕ) (course_id : String) (table : List UserCourse)
    → is_some (row_at (rows_of user_id table) course_id) ≡ false
    → count_if (is_row user_id course_id) table ≡ 0
row_at-count user_id course_id [] h = refl
row_at-count user_id course_id (row ∷ table) h =
    ground (arith, row_at-count user_id course_id table)

module _ {Config : Type 0} (u : Unicode) (catalog : Catalog Config) (user_id : ℕ)
    (account_locale : String) (active : List String) (choices : Dict String)
    (effective : Option String) where
  abbrev save_one : UserCourse → UserCourse
  save_one = saved u catalog user_id account_locale active choices effective

  abbrev new_row : String → UserCourse
  new_row s = save_one (blank_row u catalog user_id account_locale s)

  fresh-count :
      (rows : List UserCourse) (w : ℕ) (c : String) (ss : List String)
      → count_if (is_row w c) (map new_row (fresh u catalog user_id account_locale rows ss))
        ≤ (if user_id == w && contains c ss && not (is_some (row_at rows c)) then 1 else 0)
  fresh-count rows w c [] = omega arith
  fresh-count rows w c (s ∷ ss) =
      ground (arith, fresh-count rows w c ss, contains-cons c s ss, str_eq_iff s c, str_eq_iff c s)

  write_rows-HasSingleRows :
      (table : List UserCourse)
      → HasSingleRows table
      → HasSingleRows (write_rows u catalog user_id account_locale active choices effective table)
  write_rows-HasSingleRows table h w c =
      let slugs = active ++ keys choices in
      let rows = rows_of user_id table in
      let new = map new_row (fresh u catalog user_id account_locale rows slugs) in
      let added = fresh-count rows w c slugs in
      let kept =
        count_if-map_le (is_row w c) (λ row. if row.user_id == user_id then save_one row else row)
          table (λ x. ground arith) in
      rw
        (count_if-append (is_row w c)
          (map (λ row. if row.user_id == user_id then save_one row else row) table) new)
        (elim (Bool-cases (is_some (row_at rows c))) [
          | inl e ↦ ground (arith, h w c)
          | inr e ↦ ground (arith, h w c, row_at-count user_id c table e)
        ])

  -- Who is selected among the rows that were written.
  abbrev effective_text : String
  effective_text = elim effective [ none ↦ "" | some s ↦ s ]

  selected_is_row :
      {A : Type 0} (w : ℕ) (f : A → UserCourse)
      → ((a : A) → is_selected_of w (f a) ≡ true → is_row w effective_text (f a) ≡ true)
      → (xs : List A)
      → count_if (is_selected_of w) (map f xs) ≤ count_if (is_row w effective_text) (map f xs)
  selected_is_row w f h [] = omega arith
  selected_is_row w f h (x ∷ xs) = ground (arith, h x, selected_is_row w f h xs)

  -- A row that was saved and is selected is that of the effective course.
  save_one-selected :
      (w : ℕ) (row : UserCourse)
      → is_selected_of w (save_one row) ≡ true
      → is_row w effective_text (save_one row) ≡ true
  save_one-selected w row h = elim (Option-cases effective) [
    | inl e ↦ absurd (ground arith)
    | inr (s, e) ↦ ground (arith, opt_str_eq_iff (some row.course_id) (some s), str_eq_self s)
  ]

  write_rows-HasSingleSelection :
      (table : List UserCourse)
      → HasSingleRows table
      → HasSingleSelection table
      → HasSingleSelection
          (write_rows u catalog user_id account_locale active choices effective table)
  write_rows-HasSingleSelection table h k w =
      let slugs = active ++ keys choices in
      let rows = rows_of user_id table in
      let names = fresh u catalog user_id account_locale rows slugs in
      let change = λ (row : UserCourse). if row.user_id == user_id then save_one row else row in
      let test = is_selected_of w in
      let new_selected =
        selected_is_row w new_row
          (λ s. save_one-selected w (blank_row u catalog user_id account_locale s)) names in
      rw (count_if-append test (map change table) (map new_row names))
        (elim (Bool-cases (user_id == w)) [
          | inl e ↦
              let old_selected =
                selected_is_row w change
                  (λ row c. elim (Bool-cases (row.user_id == user_id)) [
                    | inl y ↦ rw y (save_one-selected w row (rw y at c))
                    | inr n ↦ absurd (ground arith)
                  ])
                  table in
              omega (
                arith,
                old_selected,
                new_selected,
                count_if-append (is_row w effective_text) (map change table) (map new_row names),
                write_rows-HasSingleRows table h w effective_text,
              )
          | inr e ↦
              let old = count_if-map_le test change table (λ row. ground arith) in
              let none_new = fresh-count rows w effective_text slugs in ground (arith, k w)
        ])

save_rows_cases :
    {Config : Type 0} (u : Unicode) (catalog : Catalog Config) (user_id : ℕ)
    (account_locale : String) (active : List String) (choices : Dict String)
    (table : List UserCourse) (selected : Option String) (table' : List UserCourse)
    → save_rows u catalog user_id account_locale table active selected choices ≡ ok table'
    → (chosen : Option String) × (table'
        ≡ write_rows u catalog user_id account_locale active choices chosen table)
unfolding save_rows
save_rows_cases u catalog user_id account_locale active choices table selected table' h =
    elim (Result-cases (validate u catalog user_id account_locale active choices)) [
      | inr (f, e) ↦ absurd (ground arith)
      | inl (_, e) ↦ elim (Result-cases (alphabetical u catalog account_locale)) [
        | inr (f, l) ↦ absurd (ground arith)
        | inl (courses, l) ↦ (
          effective_of u catalog user_id account_locale (map slug courses) active selected,
          ground arith,
        )
      ]
    ]

-- Saving what a user has active, whoever the rows belong to and however the call ends, leaves no user with
-- two rows for one course or with two selected courses, if none had before.
pub save_state-HasSingleSelection :
    {Config : Type 0} (u : Unicode) (catalog : Catalog Config) (user_id : ℕ)
    (account_locale : String) (table : List UserCourse) (active : List String)
    (selected : Option String) (choices : Dict String)
    → HasSingleRows table
    → HasSingleSelection table
    → HasSingleRows (save_state u catalog user_id account_locale table active selected choices).1
      × HasSingleSelection
          (save_state u catalog user_id account_locale table active selected choices).1
unfolding save_state
save_state-HasSingleSelection u catalog user_id account_locale table active selected choices h k =
    elim (Result-cases (save_rows u catalog user_id account_locale table active selected choices)) [
      | inr (f, e) ↦
          let kept : (save_state u catalog user_id account_locale table active selected choices).1
              ≡ table =
            ground arith in
          rw kept (h, k)
      | inl (table', e) ↦
          let (chosen, same) =
            save_rows_cases u catalog user_id account_locale active choices table selected table'
              e in
          let written : (save_state u catalog user_id account_locale table active selected
                choices).1
              ≡ table' =
            ground arith in
          rw (written, same)
            (
              write_rows-HasSingleRows u catalog user_id account_locale active choices chosen table
                  h,
              write_rows-HasSingleSelection u catalog user_id account_locale active choices chosen
                  table h k,
            )
    ]
