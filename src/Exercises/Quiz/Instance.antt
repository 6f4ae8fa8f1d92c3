-- ===== src/Exercises/Quiz/Instance.antt =====
-- backend/src/tradeschool/exercises/quiz.py, `generate`: a question as the learner sees it.
use tradeschool.Base.{
  ℕ, zero, suc, ◌+◌, ◌*◌, ◌/◌, ◌%◌, ltb, String, List, [], ◌∷◌, length, get_elem?, enumerate,
  if◌then◌else◌, Result, ok, Failure, ◌>>=◌, or_raise, traverse,
}
use tradeschool.Base.Json.{Json, Items, Fields, Object}
use tradeschool.Content.Schema.{LocalizedText, get_text}
use tradeschool.Exercises.Generator.{GeneratedInstance}
use tradeschool.Exercises.Random.{shuffle}
use tradeschool.Exercises.Quiz.{
  QuizKind, QuizOption, OrderItem, MatchPair, QuizVariant, QuizConfig, range_from, variant,
}
use Prim.Native.String

-- The text of a `QuizKind`.
abbrev pub kind_text : QuizKind → String
kind_text QuizKind.single_choice = "single_choice"
kind_text QuizKind.true_false = "true_false"
kind_text QuizKind.multi_select = "multi_select"
kind_text QuizKind.ordering = "ordering"
kind_text QuizKind.matching = "matching"

abbrev pub to_items : List Json → Items
to_items [] = Items.nil
to_items (j ∷ js) = Items.cons j (to_items js)

abbrev pub to_fields : Object → Fields
to_fields [] = Fields.end
to_fields ((k, j) ∷ o) = Fields.field k j (to_fields o)

-- The text of a number below ten.
abbrev pub digit : ℕ → String
digit n = elim n [
  | zero ↦ "0"
  | suc zero ↦ "1"
  | suc (suc zero) ↦ "2"
  | suc (suc (suc zero)) ↦ "3"
  | suc (suc (suc (suc zero))) ↦ "4"
  | suc (suc (suc (suc (suc zero)))) ↦ "5"
  | suc (suc (suc (suc (suc (suc zero))))) ↦ "6"
  | suc (suc (suc (suc (suc (suc (suc zero)))))) ↦ "7"
  | suc (suc (suc (suc (suc (suc (suc (suc zero))))))) ↦ "8"
  | _ ↦ "9"
]

-- `str(n)`, on fuel: a number has at most as many digits as its value says, and one.
abbrev pub decimal_from : (fuel : ℕ) → ℕ → String
decimal_from zero n = digit n
decimal_from (suc fuel) n =
    let rest = decimal_from fuel (n / 10) in
    if ltb n 10 then digit n else Prim.Native.String.◌++◌ rest (digit (n % 10))

abbrev pub decimal : ℕ → String
decimal n = decimal_from n n

-- `f"l{slot}"` and `f"r{slot}"`
abbrev pub slot_id : String → ℕ → String
slot_id side slot = Prim.Native.String.◌++◌ side (decimal slot)

module _ (draw : ℕ → ℕ → ℕ) where
  -- `_shuffled`
  unfoldable pub shuffled : (n seed salt : ℕ) → List ℕ
  shuffled n seed salt = shuffle (draw (seed * 1000 + salt)) (range_from 0 n)

  -- `xs[i]`
  abbrev pub place_of : {A : Type 0} → List A → ℕ → Result A
  place_of xs i = or_raise (get_elem? xs i) (Failure.other "IndexError")

  -- An option or an item: its id and its text, and nothing about the solution.
  abbrev pub entry : (id : String) → LocalizedText → (locale : String) → Result Json
  entry id text locale = do
    t ← get_text text locale
    ok (Json.obj (to_fields (("id", Json.str id) ∷ ("text", Json.str t) ∷ [])))

  abbrev pub option_entry : List QuizOption → (locale : String) → ℕ → Result Json
  option_entry options locale i = do o ← place_of options i; entry o.id o.text locale

  abbrev pub item_entry : List OrderItem → (locale : String) → ℕ → Result Json
  item_entry items locale i = do o ← place_of items i; entry o.id o.text locale

  abbrev pub left_entry : List MatchPair → (locale : String) → ℕ × ℕ → Result Json
  left_entry pairs locale (slot, i) = do
    p ← place_of pairs i
    entry (slot_id "l" slot) p.left locale

  abbrev pub right_entry : List MatchPair → (locale : String) → ℕ × ℕ → Result Json
  right_entry pairs locale (slot, i) = do
    p ← place_of pairs i
    entry (slot_id "r" slot) p.right locale

  -- What a kind adds to the payload.
  abbrev pub payload_of : QuizVariant → (seed : ℕ) (locale : String) → QuizKind → Result Object
  payload_of v seed locale QuizKind.single_choice = do
    options ← traverse (option_entry v.options locale) (shuffled (length v.options) seed 0)
    ok (("options", Json.arr (to_items options)) ∷ [])
  payload_of v seed locale QuizKind.multi_select = do
    options ← traverse (option_entry v.options locale) (shuffled (length v.options) seed 0)
    ok (("options", Json.arr (to_items options)) ∷ [])
  payload_of v seed locale QuizKind.true_false = ok []
  payload_of v seed locale QuizKind.ordering = do
    items ← traverse (item_entry v.items locale) (shuffled (length v.items) seed 0)
    ok (("items", Json.arr (to_items items)) ∷ [])
  payload_of v seed locale QuizKind.matching = do
    lefts ← traverse (left_entry v.pairs locale) (enumerate 0 (shuffled (length v.pairs) seed 1))
    rights ← traverse (right_entry v.pairs locale) (enumerate 0 (shuffled (length v.pairs) seed 2))
    ok (("lefts", Json.arr (to_items lefts)) ∷ ("rights", Json.arr (to_items rights)) ∷ [])

  -- `QuizGenerator.generate`
  unfoldable pub generate : QuizConfig → (seed : ℕ) (locale : String) → Result GeneratedInstance
  unfolding shuffled variant
  generate config seed locale = do
    v ← variant draw config seed
    payload ← payload_of v seed locale v.kind
    prompt ← get_text v.prompt locale
    ok (record { prompt = prompt; payload = ("kind", Json.str (kind_text v.kind)) ∷ payload })
