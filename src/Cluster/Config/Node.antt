-- ===== src/Cluster/Config/Node.antt =====
-- cluster/nodeidentity.go: withNodeIdentity, clusterLinkDocuments and linkAlias.
-- The texts of a prefix and of an address are parameters, and so is container.New.
pub mod Declared
pub mod Identity
use Prim.Native.String.{◌++◌ as str_append}
use talos_in_qemu.Prelude.{
  named_error, String, Bool, true, false, Option, none, some, List, [], ◌∷◌, ◌++◌, map, any, not,
  ◌&&◌, ◌||◌, str_eq, Result, ok, ◌>>=◌, ◌>>◌, refuse_if, if◌then◌else◌,
}
use talos_in_qemu.Netip.{Addr, Prefix, masked}
use talos_in_qemu.Cluster.Identity.{ClusterNetwork}
use talos_in_qemu.Cluster.Config.Documents.{auto_off, Document}
use talos_in_qemu.Cluster.Config.Documents.Document.{
  kube_node_config, kube_flannel_config, kube_proxy_config, hostname_config, link_alias_config,
  link_config, dhcp4_config,
}
use talos_in_qemu.Cluster.Config.Volumes.{Blocks}

pub data NodeRefusal : Type 0 where
  no_node_documents : (node flannel : Bool) → NodeRefusal
  no_hostname_document no_egress : NodeRefusal
  not_a_selector not_a_container : String → NodeRefusal

-- Prefix.String and Addr.String.
pub record NetTexts : Type 0 where
  pub prefix_text : Prefix → String
  pub addr_text : Addr → String

abbrev pub is_some {ℓ} : {A : Type ℓ} → Option A → Bool
is_some none = false
is_some (some _) = true

-- UserModeNetwork
abbrev pub user_mode_network : String
user_mode_network = "10.0.2.0/24"

abbrev pub segment_text : NetTexts → ClusterNetwork → String
segment_text texts cn = texts.prefix_text (masked cn.address)

module _ {Size Match Other : Type 0} where
  abbrev is_node : Document Size Match Other → Bool
  is_node (kube_node_config _ _) = true
  is_node _ = false

  abbrev is_flannel : Document Size Match Other → Bool
  is_flannel (kube_flannel_config _ _) = true
  is_flannel _ = false

  abbrev is_hostname : Document Size Match Other → Bool
  is_hostname (hostname_config _ _ _) = true
  is_hostname _ = false

  module _ (texts : NetTexts) where
    -- The cases of the loop's switch on a cluster network.
    unfoldable pub on_segment :
        ClusterNetwork → Document Size Match Other → Document Size Match Other
    on_segment cn (kube_node_config subnets rest) =
        kube_node_config (segment_text texts cn ∷ []) rest
    on_segment cn (kube_flannel_config args rest) =
        kube_flannel_config
          (args ++ str_append "--iface-can-reach=" (texts.addr_text (masked cn.address).addr) ∷ [])
          rest
    on_segment cn (kube_proxy_config object rest) =
        kube_proxy_config (some (segment_text texts cn ∷ user_mode_network ∷ [])) rest
    on_segment cn doc = doc

    -- The case of the loop's switch on a declared hostname.
    unfoldable pub with_hostname : String → Document Size Match Other → Document Size Match Other
    with_hostname name (hostname_config auto hostname rest) =
        hostname_config (some auto_off) name rest
    with_hostname name doc = doc

    -- One round of the loop.
    abbrev pub identified :
        Option ClusterNetwork → String → Document Size Match Other → Document Size Match Other
    identified none hostname doc =
        if not (str_eq hostname "") then with_hostname hostname doc else doc
    identified (some cn) hostname doc =
        if not (str_eq hostname "")
        then with_hostname hostname (on_segment cn doc)
        else on_segment cn doc

  module _ (blocks : Blocks Size Match) where
    -- linkAlias
    abbrev link_alias : String → String → Result NodeRefusal (Document Size Match Other)
    link_alias name mac =
        named_error not_a_selector
          (blocks.link_match (str_append "mac(link.permanent_addr) == " (blocks.quoted mac)))
        >>= λ m. ok (link_alias_config name m)

    -- clusterLinkDocuments
    unfoldable pub cluster_link_documents :
        ClusterNetwork → Result NodeRefusal (List (Document Size Match Other))
    cluster_link_documents cn =
        refuse_if (str_eq cn.egress_hardware_addr "") no_egress
        >> (link_alias "cluster0" cn.hardware_addr >>= λ cluster_alias.
            link_alias "egress0" cn.egress_hardware_addr >>= λ egress_alias. ok (
              cluster_alias
              ∷ egress_alias
              ∷ link_config "cluster0" true (cn.address ∷ [])
              ∷ dhcp4_config "egress0"
              ∷ []))

    abbrev links_of : Option ClusterNetwork → Result NodeRefusal (List (Document Size Match Other))
    links_of none = ok []
    links_of (some cn) = cluster_link_documents cn

    -- withNodeIdentity on the documents of a config, before container.New.
    unfoldable pub with_node_identity :
        NetTexts
        → Option ClusterNetwork
        → String
        → List (Document Size Match Other)
        → Result NodeRefusal (List (Document Size Match Other))
    unfolding on_segment with_hostname cluster_link_documents
    with_node_identity texts cn hostname docs =
        refuse_if (is_some cn && (not (any is_node docs) || not (any is_flannel docs)))
          (no_node_documents (any is_node docs) (any is_flannel docs))
        >> (refuse_if (not (str_eq hostname "") && not (any is_hostname docs)) no_hostname_document
            >> (links_of cn >>= λ links. ok (map (identified texts cn hostname) docs ++ links)))
