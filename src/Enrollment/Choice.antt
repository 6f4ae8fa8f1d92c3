-- ===== src/Enrollment/Choice.antt =====
-- backend/src/tradeschool/enrollment/service.py: the course that is selected.
use tradeschool.Base.{
  ℕ, String, ◌≡◌, refl, true, Option, none, some, List, [], ◌∷◌, map, select, find, find_holds,
  contains, contains-cons, str_eq_self, arith, Option-cases, inl, inr, ok, Result-cases, traverse,
  subst,
}
use tradeschool.Content.Registry.{slug}
use tradeschool.Enrollment.{UserCourse, Unicode, Catalog, alphabetical, published, rows_of}
use tradeschool.Enrollment.State.{
  EnrollmentState, first_of, behind, fallback_selection, selected_of, is_active_in, reading_entry,
  load_state,
}

first_of-active :
    (active : List String) (s : String) → first_of active ≡ some s → contains s active ≡ true
first_of-active [] s h = cc
first_of-active (x ∷ xs) s h = ground (arith, contains-cons s x xs, str_eq_self s)

-- The course that follows the previous one, when there is one, is an active one.
pub fallback_selection-active :
    (active : List String) (previous : Option String) (ordered : List String) (s : String)
    → fallback_selection active previous ordered ≡ some s
    → contains s active ≡ true
unfolding fallback_selection
fallback_selection-active [] previous ordered s h = cc
fallback_selection-active (a ∷ others) none ordered s h = first_of-active (a ∷ others) s h
fallback_selection-active (a ∷ others) (some p) ordered s h =
    elim (Option-cases (find (λ x. contains x (a ∷ others)) (behind p ordered))) [
      | inl e ↦ first_of-active (a ∷ others) s (ground arith)
      | inr (t, e) ↦ ground (
        arith,
        find_holds (λ x. contains x (a ∷ others)) (behind p ordered) t e,
        first_of-active (a ∷ others) s,
      )
    ]

selected_of-active :
    (rows : List UserCourse) (active : List String) (s : String)
    → selected_of rows active ≡ some s
    → contains s active ≡ true
selected_of-active rows active s h =
    elim (Option-cases (find (λ (row : UserCourse). row.selected) rows)) [
      | inl e ↦ first_of-active active s (ground arith)
      | inr (row, e) ↦ ground (arith, first_of-active active s)
    ]

selected_of-none :
    (rows : List UserCourse) (active : List String) → selected_of rows active ≡ none → active ≡ []
selected_of-none rows [] h = refl
selected_of-none rows (a ∷ others) h = absurd (ground arith)

-- One of the active courses, or none where there are none.
abbrev pub IsSelection : List String → Option String → Type 0
IsSelection active none = active ≡ []
IsSelection active (some s) = contains s active ≡ true

selected_of-IsSelection :
    (rows : List UserCourse) (active : List String) → IsSelection active (selected_of rows active)
selected_of-IsSelection rows active = elim (Option-cases (selected_of rows active)) [
  | inl e ↦ rw e (selected_of-none rows active e)
  | inr (s, e) ↦ rw e (selected_of-active rows active s e)
]

-- A state that is loaded selects one of its active courses, and none only where no course is active.
pub load_state-IsSelection :
    {Config : Type 0} (u : Unicode) (catalog : Catalog Config) (user_id : ℕ)
    (account_locale : String) (table : List UserCourse) (state : EnrollmentState)
    → load_state u catalog user_id account_locale table ≡ ok state
    → IsSelection state.active state.selected
unfolding load_state
load_state-IsSelection u catalog user_id account_locale table state h =
    let rows = rows_of user_id table in
    elim (Result-cases (alphabetical u catalog account_locale)) [
      | inr (f, e) ↦ absurd (ground arith)
      | inl (courses, e) ↦
          elim (Result-cases
            (traverse (reading_entry u catalog user_id account_locale rows) (published catalog))) [
              | inr (f, l) ↦ absurd (ground arith)
              | inl (reading, l) ↦
                  let active = select (is_active_in rows) (map slug courses) in
                  let made : EnrollmentState = record {
                    active = active;
                    selected = selected_of rows active;
                    reading_languages = reading;
                  } in
                  let same : made ≡ state = ground arith in
                  subst (λ (s : EnrollmentState). IsSelection s.active s.selected) same
                    (selected_of-IsSelection rows active)
            ]
    ]
