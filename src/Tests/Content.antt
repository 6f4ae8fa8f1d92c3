-- ===== src/Tests/Content.antt =====
-- The manifest and the registry of the small course.
use tradeschool.Base.{
  ◌++◌, ◌≡◌, refl, ◌↔◌, ok, err, some, [], value_error, str_eq, contains, List, ◌∷◌, All,
}
use tradeschool.Content.Schema.{Manifest, validate_structure, text_languages}
use tradeschool.Content.Schema.Ids.{IsWellFormed, validate_structure_iff}
use tradeschool.Content.Registry.{build, exercise_key, exercise_id_for_key}
use tradeschool.Content.Registry.Keys.{exercise_key_iff}
use tradeschool.Content.Registry.Tree.{BlockItem, course_tree}
use tradeschool.Content.Registry.Page.{IsCounted, course_tree_total}
use tradeschool.Tests.Sample.{manifest, configs}

valid : validate_structure manifest ≡ ok manifest
unfolding validate_structure str_eq contains
valid = refl

abbrev twice_listed : Manifest
twice_listed = record manifest { blocks = manifest.blocks ++ manifest.blocks }

-- A block that stands twice is refused.
invalid : validate_structure twice_listed ≡ err value_error
unfolding validate_structure str_eq contains
invalid = refl

pub manifest-IsWellFormed : IsWellFormed manifest
manifest-IsWellFormed = (validate_structure_iff manifest).0 valid

validate_structure_iff_example : (validate_structure manifest ≡ ok manifest) ↔ IsWellFormed manifest
validate_structure_iff_example = validate_structure_iff manifest

exercise_key_iff_example :
    (exercise_key (build manifest [] configs) "m01-ex-2" ≡ ok "k01-ex-2")
    ↔ (exercise_id_for_key (build manifest [] configs) "k01-ex-2" ≡ some "m01-ex-2")
exercise_key_iff_example =
    exercise_key_iff manifest [] configs manifest-IsWellFormed "m01-ex-2" "k01-ex-2"

-- The course page in Spanish, for a learner who read the one lesson of the first module and passed one
-- exercise.
course_tree_total_example :
    (blocks : List BlockItem) × (course_tree
        (build manifest [] configs)
        []
        "es"
        ("m01-l1" ∷ [])
        (some ("m01-ex-1" ∷ []))
      ≡ ok blocks)
    × All (λ b. All IsCounted b.modules) blocks
unfolding contains text_languages str_eq
course_tree_total_example =
    course_tree_total manifest [] configs manifest-IsWellFormed [] "es" ("m01-l1" ∷ []) refl
      (some ("m01-ex-1" ∷ []))
