-- ===== src/Tests/Stats.antt =====
-- Statistics of three learners at the small course.
use tradeschool.Base.{
  ℕ, ◌≡◌, refl, Bool, Option, none, some, String, List, [], ◌∷◌, true, false, length, count_if,
  sum_by, All, Result, ok, err,
}
use tradeschool.Base.Sort.{sort_by}
use tradeschool.Content.Schema.{ExerciseType, get_text}
use tradeschool.Content.Registry.{module_title, slug}
use tradeschool.Store.{Attempt, AttemptState, Db}
use tradeschool.Stats.{answered_attempts, roll_at, roll_by_exercise}
use tradeschool.Stats.Rolls.{results_of, first_of, first_success, roll_by_exercise-results}
use tradeschool.Stats.Rows.{MeStats, ModuleRow, empty_page}
use tradeschool.Stats.Me.{me_stats, me_page}
use tradeschool.Stats.Review.{IsReconciled, me_stats-IsReconciled}
use tradeschool.Stats.Global.{GlobalStats, global_stats, global_page, empty_crowd}
use tradeschool.Stats.Learners.{IsHonest, global_stats-learners}
use tradeschool.Tests.Sample.{registry, platform, answer, program}

abbrev answered_row : (id user_id : ℕ) (key : String) → Bool → Attempt
answered_row id user_id key correct = record {
  id = id;
  user_id = user_id;
  course_id = "crypto";
  exercise_id = key;
  seed = 12;
  instance_snapshot = record { type = ExerciseType.quiz; prompt = "Which?"; payload = [] };
  given_answer = some answer;
  is_correct = some correct;
  state = AttemptState.answered;
  exam_session_id = none;
  created_at = id;
  answered_at = some id;
}

abbrev stats_db : Db
stats_db = record {
  attempts =
      answered_row 1 7 "k01-ex-1" false
      ∷ answered_row 2 8 "k01-ex-1" true
      ∷ answered_row 3 9 "k01-ex-1" false
      ∷ answered_row 4 7 "k01-ex-1" true
      ∷ [];
  exam_sessions = [];
}

abbrev average : List ℕ → Option ℕ
average ns = none

abbrev value_of : {A : Type 0} → Result A → A → A
value_of (ok a) d = a
value_of (err e) d = d

abbrev my_page : MeStats
my_page =
    value_of (me_stats platform average registry stats_db 7 ("m01-l1" ∷ []) "en")
      (me_page platform average empty_page)

abbrev our_page : GlobalStats
our_page =
    value_of (global_stats platform registry "en" stats_db)
      (global_page platform registry "en" empty_crowd [])

my_page_made : me_stats platform average registry stats_db 7 ("m01-l1" ∷ []) "en" ≡ ok my_page
unfolding program me_stats get_text
my_page_made = refl

our_page_made : global_stats platform registry "en" stats_db ≡ ok our_page
unfolding program global_stats sort_by module_title get_text
our_page_made = refl

roll_by_exercise-results_example :
    let r = roll_at (roll_by_exercise stats_db.attempts) "k01-ex-1" in
    let results = results_of "k01-ex-1" stats_db.attempts in
    (r.answered ≡ length results)
    × (r.correct ≡ count_if (λ b. b) results)
    × (r.first_correct ≡ first_of results)
    × (r.attempts_to_success ≡ first_success 1 results)
roll_by_exercise-results_example = roll_by_exercise-results stats_db.attempts "k01-ex-1"

me_stats-IsReconciled_example :
    All IsReconciled my_page.modules
    × (my_page.overall.answered ≡ sum_by (λ (r : ModuleRow). r.answered) my_page.modules)
    × (my_page.overall.correct ≡ sum_by (λ (r : ModuleRow). r.correct) my_page.modules)
me_stats-IsReconciled_example =
    me_stats-IsReconciled platform average registry stats_db 7 ("m01-l1" ∷ []) "en" my_page
      my_page_made

global_stats-learners_example :
    IsHonest platform registry "en" (answered_attempts stats_db (slug registry) none) our_page
global_stats-learners_example =
    global_stats-learners platform registry "en" stats_db our_page our_page_made
