-- ===== src/Prelude/Texts.antt =====
-- Go's strings and sort on texts: HasPrefix, HasSuffix, TrimSuffix, slices.Contains, sort.Strings.
use Prim.Native.String.{String, compare, len, slice}
use Prim.Native.Nat.{◌-◌}
use text.Mathlib.Text.{is_lt, ◌==◌ as str_eq}
use text.Mathlib.TextEquality.{eq_iff}
use mathlib.Core.Path.{◌≡◌, refl, sym}
use mathlib.Core.Logic.{◌⊎◌, ◌↔◌, inl, inr}
use mathlib.Core.Bool.{Bool, true}
use mathlib.Core.List.{List, [], ◌∷◌}
use talos_in_qemu.Prelude.Tests.{if◌then◌else◌, Bool-cases}
use talos_in_qemu.Prelude.Lists.{any, In}

-- strings.HasPrefix
abbrev pub has_prefix : String → String → Bool
has_prefix s p = str_eq (slice s 0 (len p)) p

-- strings.HasSuffix: a text that is too short has no such suffix.
abbrev pub has_suffix : String → String → Bool
has_suffix s p = str_eq (slice s (len s - len p) (len s)) p

-- strings.TrimSuffix
abbrev pub trim_suffix : String → String → String
trim_suffix s p = if has_suffix s p then slice s 0 (len s - len p) else s

-- slices.Contains
abbrev pub holds : List String → String → Bool
holds l s = any (λ t. str_eq t s) l

pub holds_iff : (l : List String) (s : String) → (holds l s ≡ true) ↔ In s l
holds_iff [] s = (λ h. cc, λ h. absurd h)
holds_iff (t ∷ l) s =
    let ih = holds_iff l s in
    (
      λ h. elim (Bool-cases (str_eq t s)) [
        | inl e ↦ inl (sym ((eq_iff t s).0 e))
        | inr e ↦ inr (ih.0 (rw e at h))
      ],
      back ih.1,
    )
  where
    back : (In s l → holds l s ≡ true) → In s (t ∷ l) → holds (t ∷ l) s ≡ true
    back ih (inl e) = rw ((eq_iff t s).1 (sym e)) refl
    back ih (inr there) = elim (Bool-cases (str_eq t s)) [
      | inl e ↦ rw e refl
      | inr e ↦ rw e (ih there)
    ]

abbrev pub insert_name : String → List String → List String
insert_name a [] = a ∷ []
insert_name a (b ∷ bs) =
    let rest = insert_name a bs in if is_lt (compare b a) then b ∷ rest else a ∷ b ∷ bs

-- sort.Strings
abbrev pub sort_names : List String → List String
sort_names [] = []
sort_names (a ∷ rest) = insert_name a (sort_names rest)

or_map {ℓ κ μ} : {A : Type ℓ} {B : Type κ} {C : Type μ} → (B → C) → A ⊎ B → A ⊎ C
or_map f (inl a) = inl a
or_map f (inr b) = inr (f b)

or_swap {ℓ κ μ} : {A : Type ℓ} {B : Type κ} {C : Type μ} → A ⊎ (B ⊎ C) → B ⊎ (A ⊎ C)
or_swap (inl a) = inr (inl a)
or_swap (inr (inl b)) = inl b
or_swap (inr (inr c)) = inr (inr c)

In-insert_name : (x a : String) (l : List String) → In x (insert_name a l) ↔ In x (a ∷ l)
In-insert_name x a [] = (λ h. h, λ h. h)
In-insert_name x a (b ∷ bs) =
    let ih = In-insert_name x a bs in
    elim (Bool-cases (is_lt (compare b a))) [
      | inl e ↦ rw e (λ h. or_swap (or_map ih.0 h), λ h. or_map ih.1 (or_swap h))
      | inr e ↦ rw e (λ h. h, λ h. h)
    ]

-- A sorted list has the same names.
pub In-sort_names : (x : String) (l : List String) → In x (sort_names l) ↔ In x l
In-sort_names x [] = (λ h. h, λ h. h)
In-sort_names x (a ∷ rest) =
    let ih = In-sort_names x rest in
    let step = In-insert_name x a (sort_names rest) in
    (λ h. or_map ih.0 (step.0 h), λ h. step.1 (or_map ih.1 h))
