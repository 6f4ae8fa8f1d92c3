-- ===== src/Base/Maps.antt =====
-- Equations between mapped lists that hold row by row.
use mathlib.Core.Path.{◌≡◌, refl, ap}
use mathlib.Core.List.{List, [], ◌∷◌, map}
use tradeschool.Base.Lists.{All}

pub map_eq {ℓ κ} :
    {A : Type ℓ} {B : Type κ} (f g : A → B) (xs : List A)
    → All (λ x. f x ≡ g x) xs
    → map f xs ≡ map g xs
map_eq f g [] h = refl
map_eq f g (x ∷ xs) h = rw (h.0, map_eq f g xs h.1) refl

pub map_same {ℓ} : {A : Type ℓ} (f : A → A) (xs : List A) → All (λ x. f x ≡ x) xs → map f xs ≡ xs
map_same f [] h = refl
map_same f (x ∷ xs) h = rw (h.0, map_same f xs h.1) refl

pub map_comp {ℓ} :
    {A : Type ℓ} (f g : A → A) (xs : List A) → map f (map g xs) ≡ map (λ x. f (g x)) xs
map_comp f g [] = refl
map_comp f g (x ∷ xs) = ap (◌∷◌ (f (g x))) (map_comp f g xs)
