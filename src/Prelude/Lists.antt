-- ===== src/Prelude/Lists.antt =====
-- Lists measured by native numbers, and predicates on lists by recursion.
use Prim.Native.Nat.{ℕ, suc, ◌+◌}
use mathlib.Core.Path.{◌≡◌, sym, subst}
use mathlib.Core.Logic.{◌⊎◌, inl, inr}
use mathlib.Core.Bool.{Bool, true, false, ◌&&◌, ◌||◌}
use mathlib.Core.List.{List, [], ◌∷◌, ◌++◌}
use native.Mathlib.Omega.{arith}

module _ {ℓ} {A : Type ℓ} where
  abbrev pub length : List A → ℕ
  length [] = 0
  length (x ∷ xs) = suc (length xs)

  abbrev pub any : (A → Bool) → List A → Bool
  any p [] = false
  any p (x ∷ xs) = p x || any p xs

  abbrev pub all : (A → Bool) → List A → Bool
  all p [] = true
  all p (x ∷ xs) = p x && all p xs

  pub length-append : (xs ys : List A) → length (xs ++ ys) ≡ length xs + length ys
  length-append [] ys = omega arith
  length-append (x ∷ xs) ys = omega (arith, length-append xs ys)

module _ {ℓ} {A : Type ℓ} (P : A → Type 0) where
  abbrev pub All : List A → Type 0
  All [] = Unit
  All (x ∷ xs) = P x × All xs

  abbrev pub Any : List A → Type 0
  Any [] = ⊥
  Any (x ∷ xs) = P x ⊎ Any xs

module _ {ℓ} {A : Type ℓ} where
  pub All-map : (P Q : A → Type 0) → ((a : A) → P a → Q a) → (l : List A) → All P l → All Q l
  All-map P Q step [] h = tt
  All-map P Q step (x ∷ l) (h, hs) = (step x h, All-map P Q step l hs)

  pub All-intro : (P : A → Type 0) → ((a : A) → P a) → (l : List A) → All P l
  All-intro P every [] = tt
  All-intro P every (x ∷ l) = (every x, All-intro P every l)

  pub All-append : (P : A → Type 0) (xs ys : List A) → All P xs → All P ys → All P (xs ++ ys)
  All-append P [] ys h k = k
  All-append P (x ∷ xs) ys (h, hs) k = (h, All-append P xs ys hs k)

module _ {A : Type 0} where
  -- Membership.
  abbrev pub In : A → List A → Type 0
  In x l = Any (λ y. x ≡ y) l

  pub In-left : (x : A) (xs ys : List A) → In x xs → In x (xs ++ ys)
  In-left x [] ys h = absurd h
  In-left x (z ∷ xs) ys (inl e) = inl e
  In-left x (z ∷ xs) ys (inr h) = inr (In-left x xs ys h)

  pub In-right : (x : A) (xs ys : List A) → In x ys → In x (xs ++ ys)
  In-right x [] ys h = h
  In-right x (z ∷ xs) ys h = inr (In-right x xs ys h)

  pub All-In : (P : A → Type 0) (x : A) (l : List A) → In x l → All P l → P x
  All-In P x [] here h = absurd here
  All-In P x (z ∷ l) (inl e) (h, hs) = subst P (sym e) h
  All-In P x (z ∷ l) (inr there) (h, hs) = All-In P x l there hs

  pub In-append : (x : A) (xs ys : List A) → In x (xs ++ ys) → In x xs ⊎ In x ys
  In-append x [] ys h = inr h
  In-append x (z ∷ xs) ys (inl e) = inl (inl e)
  In-append x (z ∷ xs) ys (inr h) = elim (In-append x xs ys h) [
    | inl a ↦ inl (inr a)
    | inr b ↦ inr b
  ]
