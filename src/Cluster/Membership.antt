-- ===== src/Cluster/Membership.antt =====
-- cluster/membership.go: LeaveEtcd, RemoveEtcdMember with peerURLOn, and DeleteNodeAt.
-- The connections, Talos's and Kubernetes's answers and url.Parse with Hostname are parameters. A run
-- leaves the calls that change a cluster, the latest first; the timeout is a call's error.
pub mod Removed
pub mod Tests
use talos_in_qemu.Prelude.{
  ℕ, String, Bool, true, false, Option, none, some, List, [], ◌∷◌, ◌++◌, ◌&&◌, str_eq, any, Result,
  ok, err, chain, named_error, if◌then◌else◌,
}

pub record Member : Type 0 where
  pub id : ℕ
  pub hostname : String
  pub peer_urls : List String

pub record Node : Type 0 where
  pub name : String
  -- The type and the address of each.
  pub addresses : List (String × String)

pub data Failure : Type 0 where
  not_connected not_left not_listed : String → Failure
  not_removed : ℕ → String → Failure
  not_deleted : String → String → Failure

pub data Event : Type 0 where
  left : Event
  removed : (id : ℕ) → Event
  deleted : (name : String) → Event

-- AuthenticatedClient to an endpoint and its calls.
pub record Etcd : Type 0 where
  pub connect : Result String (Unit {0})
  pub leave : Option String
  pub member_list : Result String (List (List Member))
  pub remove : ℕ → Option String

-- The client of a kubeconfig and its calls.
pub record Nodes : Type 0 where
  pub connect : Result String (Unit {0})
  pub list : Result String (List Node)
  pub delete : String → Option String

abbrev pub done : (String → Failure) → Option String → Result Failure (Unit {0})
done name none = ok tt
done name (some e) = err (name e)

-- The loop that stops at the first that is looked for.
unfoldable pub first_of {ℓ} : {A : Type ℓ} → (A → Bool) → List A → Option A
first_of p [] = none
first_of p (a ∷ rest) = let later = first_of p rest in if p a then some a else later

abbrev pub or_later {ℓ} : {A : Type ℓ} → Option A → Option A → Option A
or_later none later = later
or_later (some a) later = some a

-- LeaveEtcd
unfoldable pub leave_etcd : Etcd → List Event → List Event × Result Failure (Unit {0})
leave_etcd etcd h =
    chain (h, named_error not_connected etcd.connect)
      (λ _ h₁. (left ∷ h₁, done not_left etcd.leave))

module _ (host_of : String → Option String) where
  abbrev pub host_is : String → Option String → Bool
  host_is addr none = false
  host_is addr (some h) = str_eq h addr

  -- peerURLOn
  unfoldable pub peer_url_on : List String → String → Bool
  peer_url_on urls addr = any (λ raw. host_is addr (host_of raw)) urls

  -- The loops of RemoveEtcdMember: the first member with a peer URL at the address.
  unfoldable pub member_on : String → List (List Member) → Option Member
  unfolding first_of peer_url_on
  member_on addr [] = none
  member_on addr (msg ∷ rest) =
      or_later (first_of (λ m. peer_url_on m.peer_urls addr) msg) (member_on addr rest)

  abbrev pub remove_found :
      Etcd → Option Member → List Event → List Event × Result Failure (Unit {0})
  remove_found etcd none h = (h, ok tt)
  remove_found etcd (some m) h = (removed m.id ∷ h, done (not_removed m.id) (etcd.remove m.id))

  -- RemoveEtcdMember
  unfoldable pub remove_etcd_member :
      Etcd → String → List Event → List Event × Result Failure (Unit {0})
  unfolding member_on
  remove_etcd_member etcd addr h =
      chain (h, named_error not_connected etcd.connect)
        (λ _ h₁.
          chain (h₁, named_error not_listed etcd.member_list)
            (λ messages h₂. remove_found etcd (member_on addr messages) h₂))

-- The inner loop of DeleteNodeAt.
unfoldable pub node_at : String → Node → Bool
node_at addr node =
    any (λ (type, address). str_eq type "InternalIP" && str_eq address addr) node.addresses

abbrev pub delete_found : Nodes → Option Node → List Event → List Event × Result Failure (Unit {0})
delete_found nodes none h = (h, ok tt)
delete_found nodes (some n) h =
    (deleted n.name ∷ h, done (not_deleted n.name) (nodes.delete n.name))

-- DeleteNodeAt
unfoldable pub delete_node_at : Nodes → String → List Event → List Event × Result Failure (Unit {0})
unfolding first_of node_at
delete_node_at nodes addr h =
    chain (h, named_error not_connected nodes.connect)
      (λ _ h₁.
        chain (h₁, named_error not_listed nodes.list)
          (λ list h₂. delete_found nodes (first_of (node_at addr) list) h₂))
