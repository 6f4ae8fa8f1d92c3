-- ===== src/Base/Results.antt =====
-- Exceptions as values (errors.py and the exceptions that the services raise), and `do` over them.
use Prim.Native.Nat.{ℕ}
use Prim.Native.String.{String}
use mathlib.Core.Path.{◌≡◌, refl}
use mathlib.Core.Logic.{◌⊎◌, inl, inr}
use mathlib.Core.Bool.{Bool, true, false}
use mathlib.Core.Option.{Option, none, some}
use mathlib.Core.List.{List, [], ◌∷◌}

-- `AppError`: the stable code and the HTTP status; the message for the log is left out.
pub record AppError : Type 0 where
  pub code : String
  pub status : ℕ

-- What a handler may raise. `lookup_error` and `key_error` are Python's, and `value_error` stands
-- for a failed validation; `other` is any exception of a generator.
pub data Failure : Type 0 where
  app_error : AppError → Failure
  invalid_answer : Failure
  lookup_error : Failure
  key_error : Failure
  value_error : Failure
  reveal_error : Failure
  other : String → Failure

pub data Result {ℓ} (A : Type ℓ) : Type ℓ where
  ok : A → Result A
  err : Failure → Result A

module _ {ℓ κ} {A : Type ℓ} {B : Type κ} where
  -- What raises ends the block.
  infixl 5 ◌>>=◌ ◌>>◌
  abbrev pub ◌>>=◌ : Result A → (A → Result B) → Result B
  err failure >>= next = err failure
  ok result >>= next = next result

  abbrev pub ◌>>◌ : Result A → Result B → Result B
  first >> second = first >>= λ _. second

abbrev pub app : String → ℕ → Failure
app code status = app_error (record { code = code; status = status })

abbrev pub raise_if : Bool → Failure → Result (Unit {0})
raise_if true e = err e
raise_if false e = ok tt

-- `d[k]`: a missing key raises.
abbrev pub or_raise {ℓ} : {A : Type ℓ} → Option A → Failure → Result A
or_raise none e = err e
or_raise (some a) e = ok a

-- A comprehension whose body may raise: from the left, the first exception ends it.
module _ {ℓ κ} {A : Type ℓ} {B : Type κ} where
  abbrev pub traverse : (A → Result B) → List A → Result (List B)
  traverse f [] = ok []
  traverse f (x ∷ xs) = do y ← f x; ys ← traverse f xs; ok (y ∷ ys)

  pub bind_inverse :
      {result : B} (next : A → Result B) (m : Result A)
      → (m >>= next) ≡ ok result
      → (value : A) × (next value ≡ ok result) × (m ≡ ok value)
  bind_inverse next (err failure) h = cc
  bind_inverse next (ok value) h = (value, h, refl)

-- A loop whose body may raise, over the state it changes.
module _ {ℓ κ} {S : Type ℓ} {A : Type κ} where
  abbrev pub fold_result : (S → A → Result S) → S → List A → Result S
  fold_result f s [] = ok s
  fold_result f s (x ∷ xs) = do s' ← f s x; fold_result f s' xs

pub Result-cases {ℓ} :
    {A : Type ℓ} (r : Result A) → ((a : A) × (r ≡ ok a)) ⊎ ((e : Failure) × (r ≡ err e))
Result-cases (ok a) = inl (a, refl)
Result-cases (err e) = inr (e, refl)

pub ok_injective {ℓ} : {A : Type ℓ} {a b : A} → ok a ≡ ok b → a ≡ b
ok_injective h = cc h
