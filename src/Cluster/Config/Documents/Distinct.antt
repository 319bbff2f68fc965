-- ===== src/Cluster/Config/Documents/Distinct.antt =====
-- cluster/config.go: what withoutDocuments leaves, with the documents that replace the others.
use talos_in_qemu.Prelude.{
  ◌≡◌, refl, sym, ◌∙◌, inl, inr, ◌⊎◌, ◌↔◌, String, Bool, true, false, Option, List, [], ◌∷◌, ◌++◌,
  eq_iff, Bool-cases, All, In, All-append, In-append, In-left, In-right, arith, ◌||◌,
}
use talos_in_qemu.Cluster.Config.Documents.{
  document_identity, replaced, without_documents, same_identity,
}
use mathlib.Core.Path.{subst}

no_two : (b : Bool) → b ≡ true → b ≡ false → ⊥
no_two b h k = ground arith

module _ {Doc : Type 0} (kind : Doc → String) (named : Doc → Option String) where
  abbrev pub identity : Doc → String × String
  identity = document_identity kind named

  -- No two documents of a list have one identity.
  abbrev pub Distinct : List Doc → Type 0
  Distinct [] = Unit
  Distinct (d ∷ ds) = All (λ e. same_identity (identity d) (identity e) ≡ false) ds × Distinct ds

  same_sym : (p q : String × String) → same_identity p q ≡ same_identity q p
  same_sym (a, b) (c, d) = ground (arith, eq_iff a c, eq_iff c a, eq_iff b d, eq_iff d b)

  neither : (a b : Bool) → (a || b) ≡ false → (a ≡ false) × (b ≡ false)
  neither true b h = cc
  neither false b h = (refl, h)

  fresh :
      (d : Doc) (incoming : List Doc)
      → replaced kind named incoming d ≡ false
      → All (λ e. same_identity (identity d) (identity e) ≡ false) incoming
  fresh d [] h = tt
  fresh d (e ∷ incoming) h =
      let (one, others) = neither (same_identity (identity e) (identity d)) _ h in
      (same_sym (identity d) (identity e) ∙ one, fresh d incoming others)

  kept_All :
      (P : Doc → Type 0) (existing incoming : List Doc)
      → All P existing
      → All P (without_documents kind named existing incoming)
  unfolding without_documents
  kept_All P [] incoming h = tt
  kept_All P (d ∷ rest) incoming (h, hs) =
      let ih = kept_All P rest incoming hs in
      elim (Bool-cases (replaced kind named incoming d)) [ inl e ↦ rw e ih | inr e ↦ rw e (h, ih) ]

  kept_iff :
      (d : Doc) (existing incoming : List Doc)
      → In d (without_documents kind named existing incoming)
        ↔ (In d existing × (replaced kind named incoming d ≡ false))
  unfolding without_documents
  kept_iff d [] incoming = (λ h. absurd h, λ (h, k). absurd h)
  kept_iff d (e ∷ rest) incoming =
      let ih = kept_iff d rest incoming in
      elim (Bool-cases (replaced kind named incoming e)) [
        | inl r ↦ rw r (λ h. let (i, k) = ih.0 h in (inr i, k), λ (i, k). dropped ih r i k)
        | inr r ↦ rw r (
          λ h. kept ih r h,
          λ (i, k). elim i [ inl same ↦ inl same | inr there ↦ inr (ih.1 (there, k)) ],
        )
      ]
    where
      dropped :
          (In d (without_documents kind named rest incoming)
            ↔ (In d rest × (replaced kind named incoming d ≡ false)))
          → replaced kind named incoming e ≡ true
          → In d (e ∷ rest)
          → replaced kind named incoming d ≡ false
          → In d (without_documents kind named rest incoming)
      dropped ih r (inl same) k =
          absurd (no_two _ (subst (λ u. replaced kind named incoming u ≡ true) (sym same) r) k)
      dropped ih r (inr there) k = ih.1 (there, k)

      kept :
          (In d (without_documents kind named rest incoming)
            ↔ (In d rest × (replaced kind named incoming d ≡ false)))
          → replaced kind named incoming e ≡ false
          → In d (e ∷ without_documents kind named rest incoming)
          → In d (e ∷ rest) × (replaced kind named incoming d ≡ false)
      kept ih r (inl same) =
          (inl same, subst (λ u. replaced kind named incoming u ≡ false) (sym same) r)
      kept ih r (inr there) = let (i, k) = ih.0 there in (inr i, k)

  Distinct-kept :
      (existing incoming : List Doc)
      → Distinct existing
      → Distinct incoming
      → Distinct (without_documents kind named existing incoming ++ incoming)
  unfolding without_documents
  Distinct-kept [] incoming h k = k
  Distinct-kept (d ∷ rest) incoming (h, hs) k =
      let ih = Distinct-kept rest incoming hs k in
      elim (Bool-cases (replaced kind named incoming d)) [
        | inl e ↦ rw e ih
        | inr e ↦ rw e (
          All-append _ (without_documents kind named rest incoming) incoming
              (kept_All _ rest incoming h) (fresh d incoming e),
          ih,
        )
      ]

  -- The documents that replace others keep the container free of two with one identity, which it
  -- would refuse, where the others and they have none; they are all there, and of the others exactly
  -- those whose identity none of them has.
  pub without_documents_lem :
      (existing incoming : List Doc)
      → Distinct existing
      → Distinct incoming
      → Distinct (without_documents kind named existing incoming ++ incoming)
        × ((d : Doc)
            → In d (without_documents kind named existing incoming ++ incoming)
              ↔ (In d incoming ⊎ (In d existing × (replaced kind named incoming d ≡ false))))
  without_documents_lem existing incoming one two = (
    Distinct-kept existing incoming one two,
    λ d. (
      λ h. elim (In-append d (without_documents kind named existing incoming) incoming h) [
        | inl i ↦ inr ((kept_iff d existing incoming).0 i)
        | inr i ↦ inl i
      ],
      λ h. elim h [
        | inl i ↦ In-right d (without_documents kind named existing incoming) incoming i
        | inr i ↦
            In-left d (without_documents kind named existing incoming) incoming
              ((kept_iff d existing incoming).1 i)
      ],
    ),
  )
