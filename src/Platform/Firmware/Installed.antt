-- ===== src/Platform/Firmware/Installed.antt =====
-- Which firmware resolveFirmware takes: the registry of descriptors as a function of a file's name,
-- what fits a machine, and the first pair that is installed.
mod Names
use mathlib.Core.Path.{subst}
use talos_in_qemu.Prelude.{
  ◌≡◌, ◌≢◌, refl, sym, ap, ◌∙◌, ◌↔◌, ◌⊎◌, inl, inr, String, Bool, true, false, Option, none, some,
  List, [], ◌∷◌, ◌++◌, any, In, In-left, In-right, In-append, and_true, and_both, or_true, or_left,
  or_right, unless_true, no_both, not, ◌&&◌, ◌||◌, str_eq, eq_iff, arith, Bool-cases, Option-cases,
  if◌then◌else◌,
}
use talos_in_qemu.Prelude.Texts.{has_suffix, holds, holds_iff, sort_names, In-sort_names}
use talos_in_qemu.Platform.Firmware.{
  Target, Descriptor, Registry, Pair, machine_matches, matches_target, usable, feature_fits,
  suitable, Seen, names_of, gather, path_of, pair_of, pairs, scan_registry, is_installed,
  first_installed, or_table, resolve_firmware,
}
use Names.{winner, lookup, lookup-gather, In-lookup, lookup-In}

-- Secure boot wants firmware that says so; without it, firmware that needs it is no use.
abbrev pub Feature : Descriptor → Bool → Type 0
Feature d true = In "secure-boot" d.features
Feature d false = ¬ In "requires-smm" d.features × ¬ In "secure-boot" d.features

not_empty : (s : String) → not (str_eq s "") ≡ true → s ≢ ""
not_empty s h e = false_true (rw ((eq_iff s "").1 e) at h)
  where
    false_true : ◌≡◌ {A = Bool} false true → ⊥
    false_true h = cc

is_not_empty : (s : String) → s ≢ "" → not (str_eq s "") ≡ true
is_not_empty s h = elim (Bool-cases (str_eq s "")) [
  | inl e ↦ absurd (h ((eq_iff s "").0 e))
  | inr e ↦ rw e refl
]

absent_iff : (l : List String) (s : String) → (holds l s ≡ false) ↔ (¬ In s l)
absent_iff l s = (
  λ h here. both h ((holds_iff l s).1 here),
  λ h. elim (Bool-cases (holds l s)) [ inl e ↦ absurd (h ((holds_iff l s).0 e)) | inr e ↦ e ],
)
  where
    both : holds l s ≡ false → holds l s ≡ true → ⊥
    both a b = cc

feature_fits-Feature :
    (d : Descriptor) (secure_boot : Bool)
    → (feature_fits d secure_boot ≡ true) ↔ Feature d secure_boot
feature_fits-Feature d true = holds_iff d.features "secure-boot"
feature_fits-Feature d false = (
  λ h.
      let (a, b) = no_both (holds d.features "requires-smm") (holds d.features "secure-boot") h in
      ((absent_iff d.features "requires-smm").0 a, (absent_iff d.features "secure-boot").0 b),
  λ (a, b).
      rw ((absent_iff d.features "requires-smm").1 a, (absent_iff d.features "secure-boot").1 b)
        refl,
)

module _ (reg : Registry) where
  abbrev pub Targets : List Target → String → String → Type 0
  Targets targets fw_arch machine =
      (t : Target) × (m : String) × In t targets
      × (t.architecture ≡ fw_arch)
      × In m t.machines
      × (machine_matches reg m machine ≡ true)

  -- UEFI firmware in flash, with both of its files, for that machine.
  abbrev pub Fits : Descriptor → String → String → Bool → Type 0
  Fits d fw_arch machine secure_boot =
      (d.device ≡ "flash")
      × (d.executable ≢ "")
      × (d.nvram_template ≢ "")
      × In "uefi" d.interface_types
      × Feature d secure_boot
      × Targets d.targets fw_arch machine

  -- A pair that a descriptor names: a file that wins among the directories, and fits.
  abbrev pub Described : List String → String → String → Bool → Pair → Type 0
  Described dirs fw_arch machine secure_boot p =
      (n : String) × (path : String) × (d : Descriptor) × (winner reg n dirs ≡ some path)
      × (reg.decode path ≡ some d)
      × Fits d fw_arch machine secure_boot
      × (p ≡ (d.executable, d.nvram_template))

  any-In :
      (l : List String) (machine : String)
      → (any (λ m. machine_matches reg m machine) l ≡ true)
        ↔ ((m : String) × In m l × (machine_matches reg m machine ≡ true))
  any-In [] machine = (λ h. cc, λ (m, h, e). absurd h)
  any-In (x ∷ l) machine =
      let ih = any-In l machine in
      (
        λ h. elim (Bool-cases (machine_matches reg x machine)) [
          | inl e ↦ (x, inl refl, e)
          | inr e ↦ let (m, there, f) = ih.0 (rw e at h) in (m, inr there, f)
        ],
        λ (m, here, e). back ih.1 m here e,
      )
    where
      back :
          ((m : String) × In m l × (machine_matches reg m machine ≡ true)
            → any (λ m. machine_matches reg m machine) l ≡ true)
          → (m : String) → In m (x ∷ l)
          → machine_matches reg m machine ≡ true
          → any (λ m. machine_matches reg m machine) (x ∷ l) ≡ true
      back ih m (inl same) e = rw (subst (λ z. machine_matches reg z machine ≡ true) same e) refl
      back ih m (inr there) e = elim (Bool-cases (machine_matches reg x machine)) [
        | inl f ↦ rw f refl
        | inr f ↦ rw f (ih (m, there, e))
      ]

  targeted_of :
      (ts : List Target) (fw_arch machine : String)
      → (matches_target reg ts fw_arch machine ≡ true) ↔ Targets ts fw_arch machine
  unfolding matches_target
  targeted_of [] fw_arch machine = (λ h. cc, λ t. absurd t.2)
  targeted_of (t ∷ ts) fw_arch machine =
      let ih = targeted_of ts fw_arch machine in
      let inner = any-In t.machines machine in
      (
        λ h. elim (or_true _ _ h) [
          | inl b ↦
              let (e, f) = and_true _ _ b in
              let (m, here, g) = inner.0 f in
              (t, m, inl refl, (eq_iff t.architecture fw_arch).0 e, here, g)
          | inr b ↦ let (u, m, here, e, f, g) = ih.0 b in (u, m, inr here, e, f, g)
        ],
        λ (u, m, here, e, f, g). back ih.1 inner.1 u m here e f g,
      )
    where
      back :
          (Targets ts fw_arch machine → matches_target reg ts fw_arch machine ≡ true)
          → ((m : String) × In m t.machines × (machine_matches reg m machine ≡ true)
              → any (λ m. machine_matches reg m machine) t.machines ≡ true)
          → (u : Target) (m : String) → In u (t ∷ ts)
          → u.architecture ≡ fw_arch
          → In m u.machines
          → machine_matches reg m machine ≡ true
          → (str_eq t.architecture fw_arch && any (λ m. machine_matches reg m machine) t.machines
              || matches_target reg ts fw_arch machine)
            ≡ true
      back ih inner u m (inl same) e f g = or_left _ _ (
          and_both _ _
            ((eq_iff t.architecture fw_arch).1
              (subst (λ (z : Target). z.architecture ≡ fw_arch) same e))
            (inner (m, subst (λ (z : Target). In m z.machines) same f, g)))
      back ih inner u m (inr there) e f g = or_right _ _ (ih (u, m, there, e, f, g))

  suitable-Fits :
      (d : Descriptor) (fw_arch machine : String) (secure_boot : Bool)
      → (suitable reg d fw_arch machine secure_boot ≡ true) ↔ Fits d fw_arch machine secure_boot
  unfolding suitable
  suitable-Fits d fw_arch machine secure_boot = (
    λ h.
        let (u, h₁) = unless_true (usable d) _ h in
        let (v, h₂) = unless_true (holds d.interface_types "uefi") _ h₁ in
        let (f, t) = and_true _ _ h₂ in
        let (flash, w) = and_true _ _ u in
        let (code, vars) = and_true _ _ w in
        (
          (eq_iff d.device "flash").0 flash,
          not_empty d.executable code,
          not_empty d.nvram_template vars,
          (holds_iff d.interface_types "uefi").0 v,
          (feature_fits-Feature d secure_boot).0 f,
          (targeted_of d.targets fw_arch machine).0 t,
        ),
    λ (flash, code, vars, uefi, f, t).
        rw
          (
            and_both _ _ ((eq_iff d.device "flash").1 flash) (
                and_both _ _ (is_not_empty d.executable code) (is_not_empty d.nvram_template vars)),
            (holds_iff d.interface_types "uefi").1 uefi,
          )
          (and_both _ _ ((feature_fits-Feature d secure_boot).1 f)
            ((targeted_of d.targets fw_arch machine).1 t)),
  )

  none-ne-some : {d : Descriptor} → none ≡ some d → ⊥
  none-ne-some h = cc

  pair_of_iff :
      (o : Option Descriptor) (fw_arch machine : String) (secure_boot : Bool) (p : Pair)
      → In p (pair_of reg o fw_arch machine secure_boot) ↔ (
          (d : Descriptor) × (o ≡ some d)
          × Fits d fw_arch machine secure_boot
          × (p ≡ (d.executable, d.nvram_template)))
  pair_of_iff none fw_arch machine secure_boot p = (λ h. absurd h, λ t. absurd (none-ne-some t.1))
  pair_of_iff (some d) fw_arch machine secure_boot p =
      let fits = suitable-Fits d fw_arch machine secure_boot in
      elim (Bool-cases (suitable reg d fw_arch machine secure_boot)) [
        | inl e ↦ rw e (
          λ h. elim h [ inl g ↦ (d, refl, fits.0 e, g) | inr no_more ↦ absurd no_more ],
          λ (c, same, f, g). inl (
              subst (λ (z : Descriptor). p ≡ (z.executable, z.nvram_template)) (sym (some_inj same))
                g),
        )
        | inr e ↦ rw e (
          λ h. absurd h,
          λ (c, same, f, g). absurd (
              both e (
                (suitable-Fits d fw_arch machine secure_boot).1
                  (subst (λ z. Fits z fw_arch machine secure_boot) (sym (some_inj same)) f))),
        )
      ]
    where
      some_inj : {c : Descriptor} → some d ≡ some c → d ≡ c
      some_inj h = cc

      both :
          suitable reg d fw_arch machine secure_boot ≡ false
          → suitable reg d fw_arch machine secure_boot ≡ true
          → ⊥
      both a b = cc

  -- The pairs of the loop over the names.
  pairs_iff :
      (names : List String) (seen : Seen) (fw_arch machine : String) (secure_boot : Bool) (p : Pair)
      → In p (pairs reg names seen fw_arch machine secure_boot) ↔ (
          (n : String) × (d : Descriptor) × In n names
          × (reg.decode (path_of n seen) ≡ some d)
          × Fits d fw_arch machine secure_boot
          × (p ≡ (d.executable, d.nvram_template)))
  unfolding pairs
  pairs_iff [] seen fw_arch machine secure_boot p = (λ h. absurd h, λ t. absurd t.2)
  pairs_iff (k ∷ names) seen fw_arch machine secure_boot p =
      let ih = pairs_iff names seen fw_arch machine secure_boot p in
      (
        λ h. elim (In-append p _ (pairs reg names seen fw_arch machine secure_boot) h) [
          | inl here ↦
              let (d, e, f, g) =
                (pair_of_iff (reg.decode (path_of k seen)) fw_arch machine secure_boot p).0 here in
              (k, d, inl refl, e, f, g)
          | inr there ↦ let (n, d, i, e, f, g) = ih.0 there in (n, d, inr i, e, f, g)
        ],
        λ (n, d, i, e, f, g). back ih.1 n d i e f g,
      )
    where
      back :
          ((n : String) × (d : Descriptor) × In n names
              × (reg.decode (path_of n seen) ≡ some d)
              × Fits d fw_arch machine secure_boot
              × (p ≡ (d.executable, d.nvram_template))
            → In p (pairs reg names seen fw_arch machine secure_boot))
          → (n : String) (d : Descriptor) → In n (k ∷ names)
          → reg.decode (path_of n seen) ≡ some d
          → Fits d fw_arch machine secure_boot
          → p ≡ (d.executable, d.nvram_template)
          → In p (
              pair_of reg (reg.decode (path_of k seen)) fw_arch machine secure_boot
              ++ pairs reg names seen fw_arch machine secure_boot)
      back ih n d (inl same) e f g =
          In-left p _ (pairs reg names seen fw_arch machine secure_boot) (
            (pair_of_iff (reg.decode (path_of k seen)) fw_arch machine secure_boot p).1
              (d, subst (λ z. reg.decode (path_of z seen) ≡ some d) same e, f, g))
      back ih n d (inr there) e f g =
          In-right p (pair_of reg (reg.decode (path_of k seen)) fw_arch machine secure_boot) _
            (ih (n, d, there, e, f, g))

  -- The registry's pairs are those that a descriptor names.
  scan_registry_iff :
      (dirs : List String) (fw_arch machine : String) (secure_boot : Bool) (p : Pair)
      → In p (scan_registry reg dirs fw_arch machine secure_boot)
        ↔ Described dirs fw_arch machine secure_boot p
  unfolding scan_registry
  scan_registry_iff dirs fw_arch machine secure_boot p =
      let seen = gather reg dirs [] in
      let step = pairs_iff (sort_names (names_of seen)) seen fw_arch machine secure_boot p in
      (
        λ h.
            let (n, d, i, e, f, g) = step.0 h in
            (
              n,
              path_of n seen,
              d,
              sym (lookup-gather reg n dirs [])
                  ∙ lookup-In n seen ((In-sort_names n (names_of seen)).0 i),
              e,
              f,
              g,
            ),
        λ (n, path, d, w, e, f, g).
            let (i, at) = In-lookup n path seen (lookup-gather reg n dirs [] ∙ w) in
            step.1 (n, d, (In-sort_names n (names_of seen)).1 i, ap reg.decode at ∙ e, f, g),
      )

  abbrev pub Installed : Pair → Type 0
  Installed p = (reg.is_file p.0 ≡ true) × (reg.is_file p.1 ≡ true)

  first_installed_lem :
      (l : List Pair)
      → ((p : Pair) × (first_installed reg l ≡ some p) × In p l × Installed p)
        ⊎ ((first_installed reg l ≡ none) × ((p : Pair) → In p l → ¬ Installed p))
  unfolding first_installed
  first_installed_lem [] = inr (refl, λ p h. absurd h)
  first_installed_lem (p ∷ l) = elim (Bool-cases (is_installed reg p)) [
    | inl e ↦ inl (p, rw e refl, inl refl, and_true _ _ e)
    | inr e ↦ elim (first_installed_lem l) [
      | inl (q, f, i, h) ↦ inl (q, rw e f, inr i, h)
      | inr (f, none_there) ↦ inr (rw e f, λ q i. not_here e none_there q i)
    ]
  ]
    where
      not_here :
          is_installed reg p ≡ false
          → ((q : Pair) → In q l → ¬ Installed q)
          → (q : Pair) → In q (p ∷ l)
          → ¬ Installed q
      not_here e none_there q (inl same) (a, b) = both_not (rw (sym same) at e) (and_both _ _ a b)
        where
          both_not : is_installed reg q ≡ false → is_installed reg q ≡ true → ⊥
          both_not a b = cc
      not_here e none_there q (inr there) h = none_there q there h

  -- resolveFirmware takes a pair whose files are both there: one that a fitting descriptor names,
  -- the first directory with its file deciding; or, where no such pair is installed, one of the
  -- table. It fails only where no pair of either is installed.
  pub resolve_firmware_lem :
      (dirs : List String) (table : String → List Pair) (fw_arch machine : String)
      (secure_boot : Bool)
      → ((p : Pair) × (resolve_firmware reg dirs table fw_arch machine secure_boot ≡ some p)
          × Installed p
          × (Described dirs fw_arch machine secure_boot p
              ⊎ (In p (table fw_arch)
                  × ((q : Pair) → Described dirs fw_arch machine secure_boot q → ¬ Installed q))))
        ⊎ ((resolve_firmware reg dirs table fw_arch machine secure_boot ≡ none)
            × ((q : Pair) → Described dirs fw_arch machine secure_boot q → ¬ Installed q)
            × ((q : Pair) → In q (table fw_arch) → ¬ Installed q))
  unfolding resolve_firmware
  resolve_firmware_lem dirs table fw_arch machine secure_boot =
      let scanned = scan_registry_iff dirs fw_arch machine secure_boot in
      elim (first_installed_lem (scan_registry reg dirs fw_arch machine secure_boot)) [
        | inl (p, e, i, h) ↦ inl (p, rw e refl, h, inl ((scanned p).0 i))
        | inr (e, no_descriptor) ↦ elim (first_installed_lem (table fw_arch)) [
          | inl (p, f, i, h) ↦ inl (p, rw e f, h, inr (i, λ q d. no_descriptor q ((scanned q).1 d)))
          | inr (f, no_entry) ↦ inr (rw e f, λ q d. no_descriptor q ((scanned q).1 d), no_entry)
        ]
      ]
