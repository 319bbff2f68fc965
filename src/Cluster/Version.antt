-- ===== src/Cluster/Version.antt =====
-- cluster/version.go: the guard against an image that is newer than the config generator.
pub mod Tests
use talos_in_qemu.Prelude.{
  ◌≡◌, ◌≢◌, ◌↔◌, inl, inr, String, Bool, true, false, Option, none, some, arith, Option-cases,
}

-- Talos machinery's version contracts: how a version is parsed, and which contract is newer.
pub record Contracts (Contract : Type 0) : Type 0 where
  pub parse : String → Option Contract
  pub greater : Contract → Contract → Bool

-- Whether the comparison happened, and whether it refused the image.
pub record Checked : Type 0 where
  pub checked : Bool
  pub refused : Bool

module _ {Contract : Type 0} (contracts : Contracts Contract) where
  -- The test of checkVersion once both versions are contracts.
  abbrev compare_contracts : Contract → Contract → Checked
  compare_contracts img gen = record { checked = true; refused = contracts.greater img gen }

  -- checkVersion
  unfoldable pub check_version : String → String → Checked
  check_version image_version generator_version = elim (contracts.parse image_version) [
    | none ↦ record { checked = false; refused = false }
    | some img ↦ elim (contracts.parse generator_version) [
      | none ↦ record { checked = false; refused = false }
      | some gen ↦ compare_contracts img gen
    ]
  ]

  -- An image is refused exactly when both versions are known and the image's is the newer; the
  -- guard reports that it ran exactly when both are known.
  pub check_version_iff :
      (image generator : String)
      → (((check_version image generator).refused ≡ true) ↔ (
          (img : Contract) × (gen : Contract) × (contracts.parse image ≡ some img)
          × (contracts.parse generator ≡ some gen)
          × (contracts.greater img gen ≡ true)))
        × (((check_version image generator).checked ≡ true)
            ↔ ((contracts.parse image ≢ none) × (contracts.parse generator ≢ none)))
  unfolding check_version
  check_version_iff image generator = elim (Option-cases (contracts.parse image)) [
    | inl e ↦ ((λ h. absurd (ground arith), λ (i, g, p, q, r). absurd (ground arith)), ground arith)
    | inr (img, e) ↦ elim (Option-cases (contracts.parse generator)) [
      | inl f ↦
          ((λ h. absurd (ground arith), λ (i, g, p, q, r). absurd (ground arith)), ground arith)
      | inr (gen, f) ↦
          ((λ h. (img, gen, e, f, ground arith), λ (i, g, p, q, r). ground arith), ground arith)
    ]
  ]
