-- ===== src/Exercises/Generator.antt =====
-- backend/src/tradeschool/exercises/base.py: the contract of a generator, which the services use for
-- every exercise type. A generator is a pure function of configuration, seed and language; both of its
-- operations may raise.
use tradeschool.Base.{String, Bool, Option, List, ℕ, Result}
use tradeschool.Base.Json.{Json, Object}
use tradeschool.Content.Schema.{ExerciseType}

-- The public view of an exercise, never the solution.
pub record GeneratedInstance : Type 0 where
  pub prompt : String
  pub payload : Object

pub record GradeResult : Type 0 where
  pub correct : Bool
  pub correct_answer : Json
  pub solution_steps : List String
  pub explanation : Option String

-- `ExerciseGenerator`, over the type of a parsed configuration.
pub record Generator (Config : Type 0) : Type 0 where
  pub generate : Config → (seed : ℕ) → (locale : String) → Result GeneratedInstance
  pub grade : Config → (seed : ℕ) → (answer : Object) → (locale : String) → Result GradeResult

-- What a service calls: `get_generator`, and `round(num / den, 4)` in ten-thousandths, the one
-- computation with floats.
pub record Platform (Config : Type 0) : Type 0 where
  pub get_generator : ExerciseType → Generator Config
  pub round_ratio : ℕ → ℕ → ℕ
