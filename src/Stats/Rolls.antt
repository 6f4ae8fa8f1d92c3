-- ===== src/Stats/Rolls.antt =====
-- backend/src/tradeschool/stats/service.py, `_roll_by_exercise`: what a roll says of the attempts.
use tradeschool.Base.{
  ℕ, suc, ◌+◌, ◌≤◌, String, ◌≡◌, refl, ap, map, length, select, ◌∙◌, Bool, true, false, Option,
  none, some, List, [], ◌∷◌, arith, str_eq, str_eq_iff, or_else, count_if, count_if-le,
  if◌then◌else◌,
}
use tradeschool.Base.Dict.{Dict, lookup, insert, lookup-insert}
use tradeschool.Store.{Attempt}
use tradeschool.Stats.{
  ExerciseRoll, empty_roll, add, was_correct, roll_at, roll_all, roll_by_exercise,
}

-- Attempts at one exercise.
abbrev pub of_key : String → Attempt → Bool
of_key key a = str_eq a.exercise_id key

-- The results of the attempts at one exercise, in order.
abbrev pub results_of : String → List Attempt → List Bool
results_of key attempts = map was_correct (select (of_key key) attempts)

abbrev pub first_of : List Bool → Option Bool
first_of [] = none
first_of (b ∷ bs) = some b

-- The place of the first success, counted from `n`.
abbrev pub first_success : ℕ → List Bool → Option ℕ
first_success n [] = none
first_success n (true ∷ bs) = some n
first_success n (false ∷ bs) = first_success (suc n) bs

-- A roll that goes on with further results.
abbrev replay : ExerciseRoll → List Bool → ExerciseRoll
replay r [] = r
replay r (b ∷ bs) = replay (add r b) bs

replay-counts :
    (r : ExerciseRoll) (bs : List Bool)
    → ((replay r bs).answered ≡ r.answered + length bs)
      × ((replay r bs).correct ≡ r.correct + count_if (λ b. b) bs)
unfolding add
replay-counts r [] = (omega arith, omega arith)
replay-counts r (b ∷ bs) =
    let (answered, correct) = replay-counts (add r b) bs in
    (omega (arith, answered), ground (arith, correct))

replay-first :
    (r : ExerciseRoll) (bs : List Bool)
    → (replay r bs).first_correct ≡ (elim r.first_correct [ none ↦ first_of bs | some b ↦ some b ])
unfolding add
replay-first r [] = ground arith
replay-first r (b ∷ bs) = ground (arith, replay-first (add r b) bs)

replay-success :
    (r : ExerciseRoll) (bs : List Bool)
    → (replay r bs).attempts_to_success
      ≡ (elim r.attempts_to_success [ none ↦ first_success (suc r.answered) bs | some n ↦ some n ])
unfolding add
replay-success r [] = ground arith
replay-success r (b ∷ bs) = ground (arith, replay-success (add r b) bs)

-- The roll of a key, after one more attempt.
roll_at-insert :
    (rolls : Dict ExerciseRoll) (a : Attempt) (key : String)
    → roll_at (insert a.exercise_id (add (roll_at rolls a.exercise_id) (was_correct a)) rolls) key
      ≡ (if of_key key a then add (roll_at rolls key) (was_correct a) else roll_at rolls key)
roll_at-insert rolls a key = ground (
  arith,
  str_eq_iff a.exercise_id key,
  lookup-insert a.exercise_id key (add (roll_at rolls a.exercise_id) (was_correct a)) rolls,
)

-- The rolls of different exercises do not mix.
roll_all-replay :
    (rolls : Dict ExerciseRoll) (attempts : List Attempt) (key : String)
    → roll_at (roll_all rolls attempts) key ≡ replay (roll_at rolls key) (results_of key attempts)
unfolding roll_all
roll_all-replay rolls [] key = refl
roll_all-replay rolls (a ∷ rest) key =
    let next = insert a.exercise_id (add (roll_at rolls a.exercise_id) (was_correct a)) rolls in
    ground (arith, roll_all-replay next rest key, roll_at-insert rolls a key)

roll_empty : (key : String) → roll_at [] key ≡ empty_roll
unfolding lookup
roll_empty key = refl

-- The roll of an exercise counts its attempts and the correct ones, and keeps the result of the first
-- attempt and the number of attempts up to the first success, in the order of the list.
pub roll_by_exercise-results :
    (attempts : List Attempt) (key : String)
    → let r = roll_at (roll_by_exercise attempts) key in
      let results = results_of key attempts in
      (r.answered ≡ length results)
      × (r.correct ≡ count_if (λ b. b) results)
      × (r.first_correct ≡ first_of results)
      × (r.attempts_to_success ≡ first_success 1 results)
roll_by_exercise-results attempts key =
    let bs = results_of key attempts in
    let e = roll_all-replay [] attempts key ∙ ap (λ r. replay r bs) (roll_empty key) in
    let (answered, correct) = replay-counts empty_roll bs in
    rw e (
      omega (arith, answered),
      omega (arith, correct),
      replay-first empty_roll bs,
      replay-success empty_roll bs,
    )

-- No roll has more correct attempts than attempts.
pub roll_by_exercise-le :
    (attempts : List Attempt) (key : String) (roll : ExerciseRoll)
    → lookup key (roll_by_exercise attempts) ≡ some roll
    → roll.correct ≤ roll.answered
roll_by_exercise-le attempts key roll h =
    let (answered, correct, _, _) = roll_by_exercise-results attempts key in
    let e = ap (λ r. or_else r empty_roll) h in
    omega (
      arith,
      answered,
      correct,
      ap (λ r. r.answered) e,
      ap (λ r. r.correct) e,
      count_if-le (λ b. b) (results_of key attempts),
    )
