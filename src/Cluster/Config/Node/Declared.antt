-- ===== src/Cluster/Config/Node/Declared.antt =====
-- cluster/nodeidentity.go: what the documents of a config say of the node, and which of them
-- a round of withNodeIdentity makes.
use Prim.Native.String.{◌++◌ as str_append}
use talos_in_qemu.Prelude.{
  String, Bool, true, false, Option, none, some, List, [], ◌∷◌, ◌++◌, map, any, str_eq, ◌≡◌, refl,
  inl, inr, ◌⊎◌, In, All, Bool-cases, eq_iff,
}
use talos_in_qemu.Netip.{masked}
use talos_in_qemu.Cluster.Identity.{ClusterNetwork}
use talos_in_qemu.Cluster.Config.Documents.{auto_off, Document}
use talos_in_qemu.Cluster.Config.Documents.Document.{
  kube_node_config, kube_flannel_config, kube_proxy_config, hostname_config, link_config,
  dhcp4_config,
}
use talos_in_qemu.Cluster.Config.Node.{
  NetTexts, user_mode_network, segment_text, is_node, is_flannel, is_hostname, on_segment,
  with_hostname, identified,
}

module _ {Size Match Other : Type 0} (texts : NetTexts) where
  abbrev pub SubnetOf : ClusterNetwork → Document Size Match Other → Type 0
  SubnetOf cn d = (r : Other) × (d ≡ kube_node_config (segment_text texts cn ∷ []) r)

  abbrev pub InterfaceOf : ClusterNetwork → Document Size Match Other → Type 0
  InterfaceOf cn d =
      (before : List String) × (r : Other) × (d
        ≡ kube_flannel_config
            (before
              ++ str_append "--iface-can-reach=" (texts.addr_text (masked cn.address).addr) ∷ [])
            r)

  abbrev pub HostnameOf : String → Document Size Match Other → Type 0
  HostnameOf name d = (r : Other) × (d ≡ hostname_config (some auto_off) name r)

  -- A document that is there.
  abbrev pub Some : (Document Size Match Other → Type 0) → List (Document Size Match Other) → Type 0
  Some P docs = (d : Document Size Match Other) × In d docs × P d

  abbrev pub OnNetwork : Option ClusterNetwork → List (Document Size Match Other) → Type 0
  OnNetwork cn docs =
      (cn ≡ none)
      ⊎ ((own : ClusterNetwork) × (cn ≡ some own)
          × Some (SubnetOf own) docs
          × Some (InterfaceOf own) docs
          × In (link_config "cluster0" true (own.address ∷ [])) docs
          × In (dhcp4_config "egress0") docs)

  abbrev pub Named : String → List (Document Size Match Other) → Type 0
  Named hostname docs = (hostname ≡ "") ⊎ Some (HostnameOf hostname) docs

  -- No document says another thing of the node's subnets, its ports' addresses or its name.
  abbrev pub Agrees : Option ClusterNetwork → String → Document Size Match Other → Type 0
  Agrees cn hostname (kube_node_config subnets _) =
      (cn ≡ none)
      ⊎ ((own : ClusterNetwork) × (cn ≡ some own) × (subnets ≡ segment_text texts own ∷ []))
  Agrees cn hostname (kube_proxy_config addresses _) =
      (cn ≡ none)
      ⊎ ((own : ClusterNetwork) × (cn ≡ some own)
          × (addresses ≡ some (segment_text texts own ∷ user_mode_network ∷ [])))
  Agrees cn hostname (hostname_config auto name _) =
      (hostname ≡ "") ⊎ ((auto ≡ some auto_off) × (name ≡ hostname))
  Agrees cn hostname _ = Unit

  pub found :
      (p : Document Size Match Other → Bool)
      (f : Document Size Match Other → Document Size Match Other)
      (P : Document Size Match Other → Type 0)
      → ((d : Document Size Match Other) → p d ≡ true → P (f d))
      → (docs : List (Document Size Match Other)) → any p docs ≡ true
      → Some P (map f docs)
  found p f P step [] h = cc
  found p f P step (d ∷ docs) h = elim (Bool-cases (p d)) [
    | inl e ↦ (f d, inl refl, step d e)
    | inr e ↦ let (x, i, q) = found p f P step docs (rw e at h) in (x, inr i, q)
  ]

  pub all_mapped :
      (f : Document Size Match Other → Document Size Match Other)
      (P : Document Size Match Other → Type 0)
      → ((d : Document Size Match Other) → P (f d))
      → (docs : List (Document Size Match Other)) → All P (map f docs)
  all_mapped f P step [] = tt
  all_mapped f P step (d ∷ docs) = (step d, all_mapped f P step docs)

  pub subnet_lem :
      (cn : ClusterNetwork) (hostname : String) (d : Document Size Match Other)
      → is_node d ≡ true
      → SubnetOf cn (identified texts (some cn) hostname d)
  unfolding on_segment with_hostname
  subnet_lem cn hostname (kube_node_config s r) h = elim (Bool-cases (str_eq hostname "")) [
    | inl e ↦ rw e (r, refl)
    | inr e ↦ rw e (r, refl)
  ]
  subnet_lem cn hostname _ h = cc

  pub interface_lem :
      (cn : ClusterNetwork) (hostname : String) (d : Document Size Match Other)
      → is_flannel d ≡ true
      → InterfaceOf cn (identified texts (some cn) hostname d)
  unfolding on_segment with_hostname
  interface_lem cn hostname (kube_flannel_config args r) h =
      elim (Bool-cases (str_eq hostname "")) [
        | inl e ↦ rw e (args, r, refl)
        | inr e ↦ rw e (args, r, refl)
      ]
  interface_lem cn hostname _ h = cc

  pub hostname_lem :
      (cn : Option ClusterNetwork) (hostname : String) (d : Document Size Match Other)
      → str_eq hostname "" ≡ false
      → is_hostname d ≡ true
      → HostnameOf hostname (identified texts cn hostname d)
  unfolding on_segment with_hostname
  hostname_lem none hostname (hostname_config a n r) e h = rw e (r, refl)
  hostname_lem (some cn) hostname (hostname_config a n r) e h = rw e (r, refl)
  hostname_lem none hostname _ e h = cc
  hostname_lem (some cn) hostname _ e h = cc

  pub agrees_lem :
      (cn : Option ClusterNetwork) (hostname : String) (d : Document Size Match Other)
      → Agrees cn hostname (identified texts cn hostname d)
  unfolding on_segment with_hostname
  agrees_lem none hostname (kube_node_config s r) = elim (Bool-cases (str_eq hostname "")) [
    | inl e ↦ rw e (inl refl)
    | inr e ↦ rw e (inl refl)
  ]
  agrees_lem none hostname (kube_proxy_config s r) = elim (Bool-cases (str_eq hostname "")) [
    | inl e ↦ rw e (inl refl)
    | inr e ↦ rw e (inl refl)
  ]
  agrees_lem none hostname (hostname_config a n r) = elim (Bool-cases (str_eq hostname "")) [
    | inl e ↦ rw e (inl ((eq_iff hostname "").0 e))
    | inr e ↦ rw e (inr (refl, refl))
  ]
  agrees_lem none hostname _ = elim (Bool-cases (str_eq hostname "")) [
    | inl e ↦ rw e tt
    | inr e ↦ rw e tt
  ]
  agrees_lem (some cn) hostname (kube_node_config s r) = elim (Bool-cases (str_eq hostname "")) [
    | inl e ↦ rw e (inr (cn, refl, refl))
    | inr e ↦ rw e (inr (cn, refl, refl))
  ]
  agrees_lem (some cn) hostname (kube_proxy_config s r) = elim (Bool-cases (str_eq hostname "")) [
    | inl e ↦ rw e (inr (cn, refl, refl))
    | inr e ↦ rw e (inr (cn, refl, refl))
  ]
  agrees_lem (some cn) hostname (hostname_config a n r) = elim (Bool-cases (str_eq hostname "")) [
    | inl e ↦ rw e (inl ((eq_iff hostname "").0 e))
    | inr e ↦ rw e (inr (refl, refl))
  ]
  agrees_lem (some cn) hostname _ = elim (Bool-cases (str_eq hostname "")) [
    | inl e ↦ rw e tt
    | inr e ↦ rw e tt
  ]
