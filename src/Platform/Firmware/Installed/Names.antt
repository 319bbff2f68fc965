-- ===== src/Platform/Firmware/Installed/Names.antt =====
-- `seen` of scanRegistry as a map: the first directory that has a file of a name gives its path.
use mathlib.Core.Path.{subst}
use talos_in_qemu.Prelude.{
  ◌⊎◌, ◌≡◌, refl, sym, ap, ◌∙◌, inl, inr, String, Bool, true, false, Option, none, some, List, [],
  ◌∷◌, ◌++◌, In, not, ◌&&◌, str_eq, eq_iff, eq_refl, Bool-cases, Option-cases, if◌then◌else◌,
}
use talos_in_qemu.Prelude.Texts.{has_suffix, holds}
use talos_in_qemu.Platform.Firmware.{
  Registry, Seen, names_of, is_new, add_entries, entries_of, gather, path_of,
}

-- The path that a map has for a name.
abbrev pub lookup : String → Seen → Option String
lookup n [] = none
lookup n ((k, path) ∷ rest) = let later = lookup n rest in if str_eq k n then some path else later

abbrev pub or_else : Option String → Option String → Option String
or_else (some p) o = some p
or_else none o = o

holds-lookup : (n : String) (seen : Seen) → (lookup n seen ≡ none) → holds (names_of seen) n ≡ false
holds-lookup n [] h = refl
holds-lookup n ((k, path) ∷ rest) h = elim (Bool-cases (str_eq k n)) [
  | inl e ↦ absurd (some_none (rw e at h))
  | inr e ↦ rw e (holds-lookup n rest (rw e at h))
]
  where
    some_none : some path ≡ none → ⊥
    some_none h = cc

holds-lookup-some :
    (n path : String) (seen : Seen) → lookup n seen ≡ some path → holds (names_of seen) n ≡ true
holds-lookup-some n path [] h = cc
holds-lookup-some n path ((k, p) ∷ rest) h = elim (Bool-cases (str_eq k n)) [
  | inl e ↦ rw e refl
  | inr e ↦ rw e (holds-lookup-some n path rest (rw e at h))
]

lookup-append :
    (n k path : String) (seen : Seen)
    → lookup n (seen ++ ((k, path) ∷ []))
      ≡ or_else (lookup n seen) (if str_eq k n then some path else none)
lookup-append n k path [] = refl
lookup-append n k path ((j, p) ∷ rest) = elim (Bool-cases (str_eq j n)) [
  | inl e ↦ rw e refl
  | inr e ↦ rw e (lookup-append n k path rest)
]

pub In-lookup :
    (n path : String) (seen : Seen)
    → lookup n seen ≡ some path
    → In n (names_of seen) × (path_of n seen ≡ path)
unfolding path_of
In-lookup n path [] h = absurd (cc)
In-lookup n path ((k, p) ∷ rest) h = elim (Bool-cases (str_eq k n)) [
  | inl e ↦ (inl (sym ((eq_iff k n).0 e)), rw e (some_inj (rw e at h)))
  | inr e ↦ let (there, f) = In-lookup n path rest (rw e at h) in (inr there, rw e f)
]
  where
    some_inj : some p ≡ some path → p ≡ path
    some_inj h = cc

pub lookup-In :
    (n : String) (seen : Seen) → In n (names_of seen) → lookup n seen ≡ some (path_of n seen)
unfolding path_of
lookup-In n [] h = absurd h
lookup-In n ((k, p) ∷ rest) (inl e) = rw ((eq_iff k n).1 (sym e)) refl
lookup-In n ((k, p) ∷ rest) (inr h) = elim (Bool-cases (str_eq k n)) [
  | inl e ↦ rw e refl
  | inr e ↦ rw e (lookup-In n rest h)
]

module _ (reg : Registry) where
  -- The file of that name in a directory, where it is a JSON file.
  abbrev file_in : String → String → List String → Option String
  file_in n dir l = if has_suffix n ".json" && holds l n then some (reg.join dir n) else none

  -- The first directory that has a JSON file of that name.
  abbrev pub winner : String → List String → Option String
  winner n [] = none
  winner n (dir ∷ rest) = or_else (file_in n dir (entries_of (reg.read_dir dir))) (winner n rest)

  was_cases :
      (n : String) (seen : Seen)
      → ((lookup n seen ≡ none) × (holds (names_of seen) n ≡ false))
        ⊎ ((p : String) × (lookup n seen ≡ some p) × (holds (names_of seen) n ≡ true))
  was_cases n seen = elim (Option-cases (lookup n seen)) [
    | inl e ↦ inl (e, holds-lookup n seen e)
    | inr (p, e) ↦ inr (p, e, holds-lookup-some n p seen e)
  ]

  -- What the loop does with an entry of the name that is looked for, and with another one.
  same_name :
      (n dir : String) (rest : List String) (seen : Seen)
      → or_else
          (lookup n (if is_new n seen then seen ++ ((n, reg.join dir n) ∷ []) else seen))
          (file_in n dir rest)
        ≡ or_else (lookup n seen) (file_in n dir (n ∷ rest))
  same_name n dir rest seen = rw (eq_refl n) (by_json (has_suffix n ".json") (was_cases n seen))
    where
      by_json :
          (json : Bool)
          → ((lookup n seen ≡ none) × (holds (names_of seen) n ≡ false))
            ⊎ ((p : String) × (lookup n seen ≡ some p) × (holds (names_of seen) n ≡ true))
          → or_else
              (lookup n (
                if json && not (holds (names_of seen) n)
                then seen ++ ((n, reg.join dir n) ∷ [])
                else seen))
              (if json && holds rest n then some (reg.join dir n) else none)
            ≡ or_else (lookup n seen) (if json && true then some (reg.join dir n) else none)
      by_json false c = refl
      by_json true (inl (e, w)) =
          rw w (rw (lookup-append n n (reg.join dir n) seen) (rw (e, eq_refl n) refl))
      by_json true (inr (p, e, w)) = rw w (rw e refl)

  other_name :
      (n k dir : String) (seen : Seen)
      → str_eq k n ≡ false
      → lookup n (if is_new k seen then seen ++ ((k, reg.join dir k) ∷ []) else seen)
        ≡ lookup n seen
  other_name n k dir seen e = by_new (is_new k seen)
    where
      or_none : (o : Option String) → or_else o none ≡ o
      or_none (some p) = refl
      or_none none = refl

      by_new :
          (b : Bool)
          → lookup n (if b then seen ++ ((k, reg.join dir k) ∷ []) else seen) ≡ lookup n seen
      by_new true = lookup-append n k (reg.join dir k) seen ∙ rw e (or_none (lookup n seen))
      by_new false = refl

  lookup-add_entries :
      (n dir : String) (l : List String) (seen : Seen)
      → lookup n (add_entries reg dir l seen) ≡ or_else (lookup n seen) (file_in n dir l)
  unfolding add_entries
  lookup-add_entries n dir [] seen = none_there (has_suffix n ".json") (lookup n seen)
    where
      none_there :
          (json : Bool) (o : Option String)
          → o ≡ or_else o (if json && false then some (reg.join dir n) else none)
      none_there true (some p) = refl
      none_there true none = refl
      none_there false (some p) = refl
      none_there false none = refl
  lookup-add_entries n dir (k ∷ rest) seen =
      let ih =
        lookup-add_entries n dir rest
          (if is_new k seen then seen ++ ((k, reg.join dir k) ∷ []) else seen) in
      elim (Bool-cases (str_eq k n)) [
        | inl e ↦
            ih
            ∙ subst
                (λ z.
                  or_else
                    (lookup n (if is_new z seen then seen ++ ((z, reg.join dir z) ∷ []) else seen))
                    (file_in n dir rest)
                  ≡ or_else (lookup n seen) (file_in n dir (z ∷ rest)))
                (sym ((eq_iff k n).0 e)) (same_name n dir rest seen)
        | inr e ↦
            ih ∙ ap (λ o. or_else o (file_in n dir rest)) (other_name n k dir seen e) ∙ rw e refl
      ]

  or_else_assoc : (a b c : Option String) → or_else (or_else a b) c ≡ or_else a (or_else b c)
  or_else_assoc (some p) b c = refl
  or_else_assoc none b c = refl

  -- The map that the loops build holds exactly the winners.
  pub lookup-gather :
      (n : String) (dirs : List String) (seen : Seen)
      → lookup n (gather reg dirs seen) ≡ or_else (lookup n seen) (winner n dirs)
  unfolding gather
  lookup-gather n [] seen = at_end (lookup n seen)
    where
      at_end : (o : Option String) → o ≡ or_else o none
      at_end (some p) = refl
      at_end none = refl
  lookup-gather n (dir ∷ rest) seen =
      lookup-gather n rest (add_entries reg dir (entries_of (reg.read_dir dir)) seen)
      ∙ ap (λ o. or_else o (winner n rest))
          (lookup-add_entries n dir (entries_of (reg.read_dir dir)) seen)
      ∙ or_else_assoc (lookup n seen) (file_in n dir (entries_of (reg.read_dir dir)))
          (winner n rest)
