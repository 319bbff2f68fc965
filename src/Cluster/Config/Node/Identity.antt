-- ===== src/Cluster/Config/Node/Identity.antt =====
-- cluster/nodeidentity.go: what withNodeIdentity returns.
use Prim.Native.String.{◌++◌ as str_append}
use talos_in_qemu.Prelude.{
  arith, named_error, String, Bool, true, false, Option, none, some, List, [], ◌∷◌, ◌++◌, map, any,
  not, ◌&&◌, ◌||◌, str_eq, ok, refuse_if, ◌≡◌, refl, sym, inl, inr, ◌⊎◌, In, In-left, In-right, All,
  All-append, Bool-cases, eq_iff, seq-eq-ok, bind-eq-ok, ok_inj, err_not_ok,
}
use mathlib.Core.Path.{subst}
use talos_in_qemu.Cluster.Identity.{ClusterNetwork}
use talos_in_qemu.Cluster.Config.Documents.{Document}
use talos_in_qemu.Cluster.Config.Documents.Document.{link_alias_config, link_config, dhcp4_config}
use talos_in_qemu.Cluster.Config.Volumes.{Blocks}
use talos_in_qemu.Cluster.Config.Node.{
  NetTexts, NodeRefusal, is_some, is_node, is_flannel, is_hostname, identified, link_alias,
  cluster_link_documents, links_of, with_node_identity,
}
use talos_in_qemu.Cluster.Config.Node.Declared.{
  SubnetOf, InterfaceOf, HostnameOf, Some, OnNetwork, Named, Agrees, found, all_mapped, subnet_lem,
  interface_lem, hostname_lem, agrees_lem,
}

passed : (b : Bool) (e : NodeRefusal) → refuse_if b e ≡ ok tt → b ≡ false
passed true e h = absurd (err_not_ok h)
passed false e h = refl

both_there : (a b : Bool) → not a || not b ≡ false → (a ≡ true) × (b ≡ true)
both_there true true h = (refl, refl)
both_there true false h = cc
both_there false b h = cc

some_same : {A : Type 0} (a b : A) → some a ≡ some b → b ≡ a
some_same a b h = cc

module _ {Size Match Other : Type 0} (texts : NetTexts) where
  weaken :
      (P : Document Size Match Other → Type 0) (xs ys : List (Document Size Match Other))
      → Some texts P xs
      → Some texts P (xs ++ ys)
  weaken P xs ys (d, i, p) = (d, In-left d xs ys i, p)

  module _ (blocks : Blocks Size Match) where
    alias_lem :
        (name mac : String) (d : Document Size Match Other)
        → link_alias blocks name mac ≡ ok d
        → (m : Match) × (d ≡ link_alias_config name m)
    alias_lem name mac d h =
        let (m, _, k) =
          bind-eq-ok
            (named_error NodeRefusal.not_a_selector
              (blocks.link_match (str_append "mac(link.permanent_addr) == " (blocks.quoted mac))))
            _ h in
        (m, sym (ok_inj k))

    links_lem :
        (cn : Option ClusterNetwork) (hostname : String) (links : List (Document Size Match Other))
        → links_of {Other = Other} blocks cn ≡ ok links
        → All (Agrees texts cn hostname) links
          × ((cn ≡ none)
              ⊎ ((own : ClusterNetwork) × (cn ≡ some own)
                  × In (link_config "cluster0" true (own.address ∷ [])) links
                  × In (dhcp4_config "egress0") links))
    unfolding cluster_link_documents
    links_lem none hostname links h =
        (subst (λ l. All (Agrees texts none hostname) l) (ok_inj h) tt, inl refl)
    links_lem (some cn) hostname links h =
        let (named, h₁) = seq-eq-ok (refuse_if (str_eq cn.egress_hardware_addr "") _) _ h in
        let (cluster_alias, a, h₂) =
          bind-eq-ok (link_alias blocks "cluster0" cn.hardware_addr) _ h₁ in
        let (egress_alias, b, h₃) =
          bind-eq-ok (link_alias blocks "egress0" cn.egress_hardware_addr) _ h₂ in
        let (m, same) = alias_lem "cluster0" cn.hardware_addr cluster_alias a in
        let (n, also) = alias_lem "egress0" cn.egress_hardware_addr egress_alias b in
        let list = ok_inj h₃ in
        (
          subst (λ l. All (Agrees texts (some cn) hostname) l) list
              (
                subst (Agrees texts (some cn) hostname) (sym same) tt,
                (subst (Agrees texts (some cn) hostname) (sym also) tt, (tt, (tt, tt))),
              ),
          inr (
            cn,
            refl,
            subst (λ l. In (link_config "cluster0" true (cn.address ∷ [])) l) list
                (inr (inr (inl refl))),
            subst (λ l. In (dhcp4_config "egress0") l) list (inr (inr (inr (inl refl)))),
          ),
        )

    -- What is declared of the node is in the documents, and no other document says another thing.
    pub with_node_identity_lem :
        (cn : Option ClusterNetwork) (hostname : String)
        (docs new : List (Document Size Match Other))
        → with_node_identity blocks texts cn hostname docs ≡ ok new
        → OnNetwork texts cn new × Named texts hostname new × All (Agrees texts cn hostname) new
    unfolding with_node_identity
    with_node_identity_lem cn hostname docs new h =
        let (there, h₁) = seq-eq-ok (refuse_if (is_some cn && _) _) _ h in
        let (named, h₂) =
          seq-eq-ok (refuse_if (not (str_eq hostname "") && not (any is_hostname docs)) _) _ h₁ in
        let (links, l, h₃) = bind-eq-ok (links_of blocks cn) _ h₂ in
        let (agree, linked) = links_lem cn hostname links l in
        let list = ok_inj h₃ in
        let here = map (identified texts cn hostname) docs in
        (
          subst (OnNetwork texts cn) list (on_network cn links (passed _ _ there) linked),
          subst (Named texts hostname) list (by_name links (passed _ _ named)),
          subst (λ x. All (Agrees texts cn hostname) x) list
              (All-append _ here links (all_mapped texts _ _ (agrees_lem texts cn hostname) docs)
                agree),
        )
      where
        on_network :
            (c : Option ClusterNetwork) (links : List (Document Size Match Other))
            → is_some c && (not (any is_node docs) || not (any is_flannel docs)) ≡ false
            → (c ≡ none)
              ⊎ ((own : ClusterNetwork) × (c ≡ some own)
                  × In (link_config "cluster0" true (own.address ∷ [])) links
                  × In (dhcp4_config "egress0") links)
            → OnNetwork texts c (map (identified texts c hostname) docs ++ links)
        on_network none links e f = inl refl
        on_network (some own) links e (inl f) = cc
        on_network (some own) links e (inr (net, same, link, dhcp)) =
            let (node, flannel) = both_there _ _ e in
            let here = map (identified texts (some own) hostname) docs in
            inr (
              own,
              refl,
              weaken (SubnetOf texts own) here links (
                  found texts is_node _ (SubnetOf texts own) (subnet_lem texts own hostname) docs
                    node),
              weaken (InterfaceOf texts own) here links (
                  found texts is_flannel _ (InterfaceOf texts own)
                    (interface_lem texts own hostname) docs flannel),
              In-right _ here links (
                  subst (λ o. In (link_config "cluster0" true (o.address ∷ [])) links)
                    (some_same own net same) link),
              In-right _ here links dhcp,
            )

        by_name :
            (links : List (Document Size Match Other))
            → not (str_eq hostname "") && not (any is_hostname docs) ≡ false
            → Named texts hostname (map (identified texts cn hostname) docs ++ links)
        by_name links e = elim (Bool-cases (str_eq hostname "")) [
          | inl f ↦ inl ((eq_iff hostname "").0 f)
          | inr f ↦ elim (Bool-cases (any is_hostname docs)) [
            | inl g ↦ inr (
                weaken (HostnameOf texts hostname) (map (identified texts cn hostname) docs) links (
                  found texts is_hostname _ (HostnameOf texts hostname)
                    (λ d k. hostname_lem texts cn hostname d f k) docs g))
            | inr g ↦ ground (arith, e, f, g)
          ]
        ]
