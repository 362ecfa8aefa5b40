-- ===== src/Common/Places.antt =====
-- Places in a list.
use Prim.Native.Nat.{ℕ, zero, suc}
use mathlib.Core.Path.{◌≡◌, refl, sym, ap, ◌∙◌}
use mathlib.Core.Logic.{inl, inr}
use mathlib.Core.Bool.{Bool, true}
use mathlib.Core.Option.{Option, none, some}
use mathlib.Core.List.{List, [], ◌∷◌, map}
use native.Mathlib.Omega.{arith}
use teleagent_collab.Common.Equality.{if◌then◌else◌, ◌==◌, nat_eq, Bool-cases}

module _ {ℓ} {A : Type ℓ} where
  -- The element at a place, and a change of it
  unfoldable pub nth : ℕ → List A → Option A
  nth n [] = none
  nth zero (x ∷ xs) = some x
  nth (suc n) (x ∷ xs) = nth n xs

  unfoldable pub update_nth : ℕ → (A → A) → List A → List A
  update_nth n f [] = []
  update_nth zero f (x ∷ xs) = f x ∷ xs
  update_nth (suc n) f (x ∷ xs) = x ∷ update_nth n f xs

  pub nth-update_nth :
      (i j : ℕ) (f : A → A) (xs : List A) (x : A)
      → nth j xs ≡ some x
      → nth j (update_nth i f xs) ≡ some (if i == j then f x else x)
  unfolding nth update_nth
  nth-update_nth i j f [] x e = cc
  nth-update_nth zero zero f (y ∷ xs) x e = ground arith
  nth-update_nth zero (suc j) f (y ∷ xs) x e = ground arith
  nth-update_nth (suc i) zero f (y ∷ xs) x e = ground arith
  nth-update_nth (suc i) (suc j) f (y ∷ xs) x e = ground (arith, nth-update_nth i j f xs x e)

pub nth-map {ℓ κ} :
    {A : Type ℓ} {B : Type κ} (n : ℕ) (f : A → B) (xs : List A) {x : A}
    → nth n xs ≡ some x
    → nth n (map f xs) ≡ some (f x)
unfolding nth
nth-map n f [] e = cc
nth-map zero f (y ∷ xs) e = ground arith
nth-map (suc n) f (y ∷ xs) e = nth-map n f xs e

pub nth-map_inv {ℓ κ} :
    {A : Type ℓ} {B : Type κ} (n : ℕ) (f : A → B) (xs : List A) {y : B}
    → nth n (map f xs) ≡ some y
    → (x : A) × (nth n xs ≡ some x) × (f x ≡ y)
unfolding nth
nth-map_inv n f [] e = cc
nth-map_inv zero f (x ∷ xs) e = (x, refl, cc)
nth-map_inv (suc n) f (x ∷ xs) e = nth-map_inv n f xs e

-- A place in the rest of a list, seen from the whole
unfoldable pub later : Option ℕ → Option ℕ
later none = none
later (some n) = some (suc n)

-- The place of the first element that passes a test
unfoldable pub first_index {ℓ} : {A : Type ℓ} → (A → Bool) → List A → Option ℕ
unfolding later
first_index f [] = none
first_index f (x ∷ xs) = let rest = first_index f xs in if f x then some 0 else later rest

pub first_index-ext {ℓ} :
    {A : Type ℓ} (f g : A → Bool) (xs : List A)
    → ((x : A) → f x ≡ g x)
    → first_index f xs ≡ first_index g xs
unfolding first_index
first_index-ext f g [] h = refl
first_index-ext f g (x ∷ xs) h = ground (arith, h x, first_index-ext f g xs h)

pub first_index-map {ℓ κ} :
    {A : Type ℓ} {B : Type κ} (f : B → Bool) (g : A → B) (xs : List A)
    → first_index f (map g xs) ≡ first_index (λ x. f (g x)) xs
unfolding first_index
first_index-map f g [] = refl
first_index-map f g (x ∷ xs) = ground (arith, first_index-map f g xs)

some_injective {ℓ} : {A : Type ℓ} {a b : A} → some a ≡ some b → a ≡ b
some_injective e = cc

zero_ne : (i : ℕ) → ¬ (some 0 ≡ some (suc i))
zero_ne i e = ground arith

later-ne_zero : (o : Option ℕ) → ¬ (later o ≡ some 0)
unfolding later
later-ne_zero none e = cc
later-ne_zero (some n) e = ground arith

later_injective : (o : Option ℕ) {i : ℕ} → later o ≡ some (suc i) → o ≡ some i
unfolding later
later_injective none e = cc
later_injective (some n) e = ground arith

-- The element that is found passes the test.
pub first_index-holds {ℓ} :
    {A : Type ℓ} (f : A → Bool) (xs : List A) (i : ℕ) (a : A)
    → first_index f xs ≡ some i
    → nth i xs ≡ some a
    → f a ≡ true
unfolding first_index nth
first_index-holds f [] i a e n = cc
first_index-holds f (x ∷ xs) zero a e n = elim (Bool-cases (f x)) [
  | inl yes_x ↦ ap f (some_injective (sym n)) ∙ yes_x
  | inr no_x ↦ absurd (
      later-ne_zero (first_index f xs)
        (sym (ap (λ b. if b then some 0 else later (first_index f xs)) no_x) ∙ e))
]
first_index-holds f (x ∷ xs) (suc i) a e n = elim (Bool-cases (f x)) [
  | inl yes_x ↦
      absurd (zero_ne i (sym (ap (λ b. if b then some 0 else later (first_index f xs)) yes_x) ∙ e))
  | inr no_x ↦
      first_index-holds f xs i a
        (later_injective (first_index f xs)
          (sym (ap (λ b. if b then some 0 else later (first_index f xs)) no_x) ∙ e))
        n
]
