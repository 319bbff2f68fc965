-- ===== src/Cluster/Config/Documents.antt =====
-- cluster/config.go and cluster/nodeidentity.go: the documents of a machine config that the code
-- makes or changes, documentIdentity and withoutDocuments.
-- Of a document that the code only changes, the fields that it leaves alone are an `Other`; so is
-- every document of another type. The Kind and the Name of a document are the library's.
pub mod Distinct
use talos_in_qemu.Prelude.{
  String, Bool, Option, none, some, List, [], ◌∷◌, ◌&&◌, str_eq, any, if◌then◌else◌, Result, ok,
  err,
}
use talos_in_qemu.Netip.{Prefix}

-- nethelpers.AutoHostnameKind
pub data AutoHostnameKind : Type 0 where
  auto_off other_kind : AutoHostnameKind

pub data Document (Size Match Other : Type 0) : Type 0 where
  kube_node_config : (valid_subnets : List String) → (rest : Other) → Document Size Match Other
  kube_flannel_config : (extra_args : List String) → (rest : Other) → Document Size Match Other
  kube_proxy_config :
      (node_port_addresses : Option (List String)) → (rest : Other) → Document Size Match Other
  hostname_config :
      (auto : Option AutoHostnameKind)
      → (hostname : String) → (rest : Other) → Document Size Match Other
  link_alias_config : (name : String) → (match : Match) → Document Size Match Other
  link_config :
      (name : String) → (up : Bool) → (addresses : List Prefix) → Document Size Match Other
  dhcp4_config : (name : String) → Document Size Match Other
  volume_config : (name : String) → (match : Match) → (max_size : Size) → Document Size Match Other
  user_volume_config :
      (name volume_type : String)
      → (match : Match) → (min_size : String) → (grow : Bool) → (filesystem : String)
      → Document Size Match Other
  other : (rest : Other) → Document Size Match Other

abbrev or_unnamed : Option String → String
or_unnamed none = ""
or_unnamed (some name) = name

abbrev pub same_identity : String × String → String × String → Bool
same_identity (a, b) (c, d) = str_eq a c && str_eq b d

module _ {Doc : Type 0} (kind : Doc → String) (named : Doc → Option String) where
  -- documentIdentity
  unfoldable pub document_identity : Doc → String × String
  document_identity doc = (kind doc, or_unnamed (named doc))

  abbrev pub replaced : List Doc → Doc → Bool
  replaced incoming doc =
      any (λ d. same_identity (document_identity d) (document_identity doc)) incoming

  -- withoutDocuments
  unfoldable pub without_documents : List Doc → List Doc → List Doc
  unfolding document_identity
  without_documents [] incoming = []
  without_documents (doc ∷ rest) incoming =
      let kept = without_documents rest incoming in
      if replaced incoming doc then kept else doc ∷ kept
