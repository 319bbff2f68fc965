-- ===== src/Cluster/Config/Options/Names.antt =====
-- cluster/config.go: the names of the API's certificate, as the options of the generator list them.
use mathlib.Core.Path.{subst}
use mathlib.Core.List.{append-nil, append_assoc}
use talos_in_qemu.Prelude.{
  ap, ◌≡◌, ◌≢◌, refl, sym, ◌∙◌, inl, inr, ◌⊎◌, ◌↔◌, String, true, false, Option, none, some, List,
  [], ◌∷◌, ◌++◌, not, ◌&&◌, str_eq, eq_iff, Bool-cases, In, In-append, In-left, In-right, arith,
  if◌then◌else◌,
}
use talos_in_qemu.Prelude.Texts.{holds, holds_iff}
use talos_in_qemu.Cluster.Identity.{ClusterNetwork}
use talos_in_qemu.Cluster.Network.{Network}
use talos_in_qemu.Cluster.Up.Effects.{ConfigInput}
use talos_in_qemu.Cluster.Config.Node.{NetTexts}
use talos_in_qemu.Cluster.Config.Options.{
  GenerateOption, additional_subject_alt_names, version_contract, install_image,
  allow_scheduling_on_control_planes, endpoint_list, install_extra_kernel_args, network_options,
  secrets_bundle, gen_opts, extra_names, kernel_args, network_of, segment_name, extra_option,
  bundle_option,
}

abbrev pub keep : String → String → List String → List String
keep api san extra =
    if not (str_eq san api) && not (holds extra san) then extra ++ san ∷ [] else extra

differs : (s t : String) → str_eq s t ≡ false → s ≡ t → ⊥
differs s t e k = ground (arith, (eq_iff s t).1 k)

-- One round of the loop.
keep_iff :
    (api san : String) (extra : List String) (s : String)
    → In s (keep api san extra) ↔ (In s extra ⊎ ((s ≡ san) × (s ≢ api)))
keep_iff api san extra s = elim (Bool-cases (str_eq san api)) [
  | inl e ↦
      rw e
        (λ h. inl h, λ h. elim h [ inl i ↦ i | inr (f, g) ↦ absurd (g (f ∙ (eq_iff san api).0 e)) ])
  | inr e ↦ elim (Bool-cases (holds extra san)) [
    | inl f ↦ rw e (
        rw f (
          λ h. inl h,
          λ h. elim h [
            | inl i ↦ i
            | inr (g, _) ↦ subst (λ u. In u extra) (sym g) ((holds_iff extra san).0 f)
          ],
        ))
    | inr f ↦ rw e (
        rw f (
          added e,
          λ h. elim h [
            | inl i ↦ In-left s extra (san ∷ []) i
            | inr (g, _) ↦ In-right s extra (san ∷ []) (inl g)
          ],
        ))
  ]
]
  where
    added : str_eq san api ≡ false → In s (extra ++ san ∷ []) → In s extra ⊎ ((s ≡ san) × (s ≢ api))
    added e h = elim (In-append s extra (san ∷ []) h) [
      | inl i ↦ inl i
      | inr (inl g) ↦ inr (g, λ k. differs san api e (sym g ∙ k))
      | inr (inr none_left) ↦ absurd none_left
    ]

-- The loop keeps what it has and adds the names that are not the API's address.
extra_names_iff :
    (api : String) (sans extra : List String) (s : String)
    → In s (extra_names api sans extra) ↔ (In s extra ⊎ (In s sans × (s ≢ api)))
unfolding extra_names
extra_names_iff api [] extra s =
    (λ h. inl h, λ h. elim h [ inl i ↦ i | inr (nothing, _) ↦ absurd nothing ])
extra_names_iff api (san ∷ rest) extra s =
    let ih = extra_names_iff api rest (keep api san extra) s in
    let step = keep_iff api san extra s in
    (
      λ h. elim (ih.0 h) [
        | inl i ↦ elim (step.0 i) [ inl j ↦ inl j | inr (f, g) ↦ inr (inl f, g) ]
        | inr (i, g) ↦ inr (inr i, g)
      ],
      λ h. elim h [
        | inl i ↦ ih.1 (inl (step.1 (inl i)))
        | inr (inl f, g) ↦ ih.1 (inl (step.1 (inr (f, g))))
        | inr (inr i, g) ↦ ih.1 (inr (i, g))
      ],
    )

-- Every text once.
abbrev pub Once : List String → Type 0
Once [] = Unit
Once (s ∷ rest) = (In s rest → ⊥) × Once rest

Once-add : (l : List String) (s : String) → Once l → (In s l → ⊥) → Once (l ++ s ∷ [])
Once-add [] s h k = (λ i. absurd i, tt)
Once-add (t ∷ l) s (h, hs) k = (
  λ i. elim (In-append t l (s ∷ []) i) [
    | inl j ↦ h j
    | inr (inl e) ↦ k (inl (sym e))
    | inr (inr none_left) ↦ none_left
  ],
  Once-add l s hs (λ i. k (inr i)),
)

keep-Once : (api san : String) (extra : List String) → Once extra → Once (keep api san extra)
keep-Once api san extra h = elim (Bool-cases (str_eq san api)) [
  | inl e ↦ rw e h
  | inr e ↦ elim (Bool-cases (holds extra san)) [
    | inl f ↦ rw e (rw f h)
    | inr f ↦ rw e (rw f (Once-add extra san h (λ i. absent f ((holds_iff extra san).1 i))))
  ]
]
  where
    absent : holds extra san ≡ false → holds extra san ≡ true → ⊥
    absent f g = ground arith

extra_names-Once :
    (api : String) (sans extra : List String) → Once extra → Once (extra_names api sans extra)
unfolding extra_names
extra_names-Once api [] extra h = h
extra_names-Once api (san ∷ rest) extra h =
    extra_names-Once api rest (keep api san extra) (keep-Once api san extra h)

abbrev pub segment_names : NetTexts → Option ClusterNetwork → List String
segment_names texts none = []
segment_names texts (some cn) = texts.addr_text cn.address.addr ∷ []

abbrev extra_of : ConfigInput → List String
extra_of input = extra_names input.api_address input.extra_subject_alt_names []

listed_iff :
    (texts : NetTexts) (input : ConfigInput) (s : String)
    → In s (input.api_address ∷ (segment_names texts input.cluster_network ++ extra_of input)) ↔ (
        (s ≡ input.api_address)
        ⊎ (In s (segment_names texts input.cluster_network) ⊎ In s input.extra_subject_alt_names))
listed_iff texts input s = (there, back)
  where
    part :
        In s (extra_of input)
        ↔ (In s [] ⊎ (In s input.extra_subject_alt_names × (s ≢ input.api_address)))
    part = extra_names_iff input.api_address input.extra_subject_alt_names [] s

    there :
        In s (input.api_address ∷ (segment_names texts input.cluster_network ++ extra_of input))
        → (s ≡ input.api_address)
          ⊎ (In s (segment_names texts input.cluster_network) ⊎ In s input.extra_subject_alt_names)
    there (inl e) = inl e
    there (inr h) =
        elim (In-append s (segment_names texts input.cluster_network) (extra_of input) h) [
          | inl i ↦ inr (inl i)
          | inr i ↦ elim (part.0 i) [ inl nothing ↦ absurd nothing | inr (j, _) ↦ inr (inr j) ]
        ]

    back :
        (s ≡ input.api_address)
          ⊎ (In s (segment_names texts input.cluster_network) ⊎ In s input.extra_subject_alt_names)
        → In s (input.api_address ∷ (segment_names texts input.cluster_network ++ extra_of input))
    back (inl e) = inl e
    back (inr (inl i)) =
        inr (In-left s (segment_names texts input.cluster_network) (extra_of input) i)
    back (inr (inr i)) = elim (Bool-cases (str_eq s input.api_address)) [
      | inl e ↦ inl ((eq_iff s input.api_address).0 e)
      | inr e ↦ inr (
          In-right s (segment_names texts input.cluster_network) (extra_of input)
            (part.1 (inr (i, λ k. differs s input.api_address e k))))
    ]

module _ {Contract Bundle : Type 0} where
  -- The names that a list of options asks for.
  abbrev pub sans_of : List (GenerateOption Contract Bundle) → List String
  sans_of [] = []
  sans_of (additional_subject_alt_names l ∷ opts) = l ++ sans_of opts
  sans_of (_ ∷ opts) = sans_of opts

  sans-append :
      (xs ys : List (GenerateOption Contract Bundle))
      → sans_of (xs ++ ys) ≡ sans_of xs ++ sans_of ys
  sans-append [] ys = refl
  sans-append (version_contract c ∷ xs) ys = sans-append xs ys
  sans-append (install_image c ∷ xs) ys = sans-append xs ys
  sans-append (allow_scheduling_on_control_planes c ∷ xs) ys = sans-append xs ys
  sans-append (additional_subject_alt_names l ∷ xs) ys =
      ap (λ r. l ++ r) (sans-append xs ys) ∙ sym (append_assoc l (sans_of xs) (sans_of ys))
  sans-append (endpoint_list c ∷ xs) ys = sans-append xs ys
  sans-append (install_extra_kernel_args c ∷ xs) ys = sans-append xs ys
  sans-append (network_options c ∷ xs) ys = sans-append xs ys
  sans-append (secrets_bundle c ∷ xs) ys = sans-append xs ys

  kernel_sans :
      (arg : String) (ys : List (GenerateOption Contract Bundle))
      → sans_of (kernel_args arg ++ ys) ≡ sans_of ys
  kernel_sans arg ys = elim (Bool-cases (str_eq arg "")) [ inl e ↦ rw e refl | inr e ↦ rw e refl ]

  network_sans :
      (n : Option Network) (ys : List (GenerateOption Contract Bundle))
      → sans_of (network_of n ++ ys) ≡ sans_of ys
  network_sans none ys = refl
  network_sans (some n) ys = refl

  segment_sans :
      (texts : NetTexts) (cn : Option ClusterNetwork) (ys : List (GenerateOption Contract Bundle))
      → sans_of (segment_name texts cn ++ ys) ≡ segment_names texts cn ++ sans_of ys
  segment_sans texts none ys = refl
  segment_sans texts (some cn) ys = refl

extra_sans :
    (Contract : Type 0) {Bundle : Type 0} (l : List String) (b : Option Bundle)
    → sans_of {Contract = Contract} (extra_option l ++ bundle_option b) ≡ l
extra_sans C [] none = refl
extra_sans C [] (some b) = refl
extra_sans C (s ∷ l) none = append-nil (s ∷ l)
extra_sans C (s ∷ l) (some b) = append-nil (s ∷ l)

module _ {Contract Bundle : Type 0} where
  all_names :
      (texts : NetTexts) (contract : Contract) (bundle : Option Bundle) (input : ConfigInput)
      → sans_of (gen_opts texts contract bundle input)
        ≡ input.api_address
          ∷ (segment_names texts input.cluster_network
              ++ extra_names input.api_address input.extra_subject_alt_names [])
  unfolding gen_opts
  all_names texts contract bundle input =
      let extra = extra_names input.api_address input.extra_subject_alt_names [] in
      ap (λ r. input.api_address ∷ r)
        (kernel_sans input.console_arg _
          ∙ (network_sans input.network _
              ∙ (segment_sans texts input.cluster_network _
                  ∙ ap (λ r. segment_names texts input.cluster_network ++ r)
                      (extra_sans Contract extra bundle))))

  -- The names that the options ask for are the API's address, the node's address on its cluster
  -- network where it has one, and the extra names; an extra name is listed once, and not where it is
  -- the API's address.
  pub gen_opts_lem :
      (texts : NetTexts) (contract : Contract) (bundle : Option Bundle) (input : ConfigInput)
      → ((s : String)
          → In s (sans_of (gen_opts texts contract bundle input)) ↔ (
              (s ≡ input.api_address)
              ⊎ (In s (segment_names texts input.cluster_network)
                  ⊎ In s input.extra_subject_alt_names)))
        × ((extra : List String) × (sans_of (gen_opts texts contract bundle input)
              ≡ input.api_address ∷ (segment_names texts input.cluster_network ++ extra))
            × Once extra
            × (In input.api_address extra → ⊥))
  gen_opts_lem texts contract bundle input =
      let all = all_names texts contract bundle input in
      (
        λ s.
            let f = listed_iff texts input s in
            (λ h. f.0 (subst (λ l. In s l) all h), λ h. subst (λ l. In s l) (sym all) (f.1 h)),
        (
          extra_of input,
          all,
          extra_names-Once input.api_address input.extra_subject_alt_names [] tt,
          own,
        ),
      )
    where
      own : In input.api_address (extra_of input) → ⊥
      own i =
          elim ((extra_names_iff input.api_address input.extra_subject_alt_names []
              input.api_address).0
            i) [ inl nothing ↦ nothing | inr (_, other) ↦ other refl ]
