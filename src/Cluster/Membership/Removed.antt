-- ===== src/Cluster/Membership/Removed.antt =====
-- cluster/membership.go: which member or node a removal takes.
use talos_in_qemu.Prelude.{
  ◌≡◌, refl, sym, ◌∙◌, ap, inl, inr, ◌⊎◌, String, Bool, true, false, Option, none, some, List, [],
  ◌∷◌, ◌++◌, All, All-append, Result, ok, err, Bool-cases, Result-cases,
}
use talos_in_qemu.Cluster.Membership.{
  Member, Node, Failure, not_connected, not_listed, not_removed, not_deleted, Event, removed,
  deleted, Etcd, Nodes, done, first_of, or_later, peer_url_on, member_on, remove_found,
  remove_etcd_member, node_at, delete_found, delete_node_at,
}
use mathlib.Core.List.{append_assoc}

abbrev pub concat : {A : Type 0} → List (List A) → List A
concat [] = []
concat (l ∷ ls) = l ++ concat ls

-- The first of a list that passes a test, or none that does.
abbrev pub FirstOf : {A : Type 0} → (A → Bool) → List A → Option A → Type 0
FirstOf p l none = All (λ a. p a ≡ false) l
FirstOf {A} p l (some a) =
    (before : List A) × (after : List A) × (l ≡ before ++ a ∷ after)
    × All (λ b. p b ≡ false) before
    × (p a ≡ true)

module _ {A : Type 0} (p : A → Bool) where
  later : (a : A) (l : List A) (o : Option A) → p a ≡ false → FirstOf p l o → FirstOf p (a ∷ l) o
  later a l none e h = (e, h)
  later a l (some b) e (before, after, split, others, it) =
      (a ∷ before, after, ap (λ r. a ∷ r) split, (e, others), it)

  first_of_lem : (l : List A) → FirstOf p l (first_of p l)
  unfolding first_of
  first_of_lem [] = tt
  first_of_lem (a ∷ l) = elim (Bool-cases (p a)) [
    | inl e ↦ rw e ([], l, refl, tt, e)
    | inr e ↦ rw e (later a l (first_of p l) e (first_of_lem l))
  ]

  joined :
      (xs ys : List A) (a b : Option A)
      → FirstOf p xs a
      → FirstOf p ys b
      → FirstOf p (xs ++ ys) (or_later a b)
  joined xs ys none none h k = All-append _ xs ys h k
  joined xs ys none (some b) h (before, after, split, others, it) = (
    xs ++ before,
    after,
    ap (λ r. xs ++ r) split ∙ sym (append_assoc xs before (b ∷ after)),
    All-append _ xs before h others,
    it,
  )
  joined xs ys (some a) b (before, after, split, others, it) k = (
    before,
    after ++ ys,
    ap (λ r. r ++ ys) split ∙ append_assoc before (a ∷ after) ys,
    others,
    it,
  )

module _ (host_of : String → Option String) where
  -- Whether one of a member's peer URLs has the address as its host.
  abbrev pub on : String → Member → Bool
  on addr m = peer_url_on host_of m.peer_urls addr

  member_on_lem :
      (addr : String) (messages : List (List Member))
      → FirstOf (on addr) (concat messages) (member_on host_of addr messages)
  unfolding member_on
  member_on_lem addr [] = tt
  member_on_lem addr (msg ∷ rest) =
      joined (on addr) msg (concat rest) _ _ (first_of_lem (on addr) msg) (member_on_lem addr rest)

  -- What a run does about what it looked for: nothing, or one removal.
  abbrev pub Removes :
      Etcd → String → List Member → List Event → List Event × Result Failure (Unit {0}) → Type 0
  Removes etcd addr members h run =
      (All (λ m. on addr m ≡ false) members × (run ≡ (h, ok tt)))
      ⊎ ((m : Member) × FirstOf (on addr) members (some m)
          × (run ≡ (removed m.id ∷ h, done (not_removed m.id) (etcd.remove m.id))))

  Removes-found :
      (etcd : Etcd) (addr : String) (members : List Member) (o : Option Member) (h : List Event)
      → FirstOf (on addr) members o
      → Removes etcd addr members h (remove_found host_of etcd o h)
  Removes-found etcd addr members none h f = inl (f, refl)
  Removes-found etcd addr members (some m) h f = inr (m, f, refl)

  -- A removal that cannot connect or list the members returns that error and removes nothing. One
  -- that can removes the first member with a peer URL at the address, and only that one, and returns
  -- what its removal answered; where no member has one it returns nil and removes nothing.
  pub remove_etcd_member_lem :
      (etcd : Etcd) (addr : String) (h : List Event)
      → ((e : String) × (etcd.connect ≡ err e)
          × (remove_etcd_member host_of etcd addr h ≡ (h, err (not_connected e))))
        ⊎ (((e : String) × (etcd.connect ≡ ok tt)
              × (etcd.member_list ≡ err e)
              × (remove_etcd_member host_of etcd addr h ≡ (h, err (not_listed e))))
            ⊎ ((messages : List (List Member)) × (etcd.connect ≡ ok tt)
                × (etcd.member_list ≡ ok messages)
                × Removes etcd addr (concat messages) h (remove_etcd_member host_of etcd addr h)))
  unfolding remove_etcd_member
  remove_etcd_member_lem etcd addr h = elim (Result-cases etcd.connect) [
    | inl (tt, c) ↦ elim (Result-cases etcd.member_list) [
      | inl (messages, l) ↦ inr (
          inr (
            messages,
            c,
            l,
            rw c (
                rw l (
                  Removes-found etcd addr (concat messages) (member_on host_of addr messages) h
                    (member_on_lem addr messages))),
          ))
      | inr (e, l) ↦ inr (inl (e, c, l, rw c (rw l refl)))
    ]
    | inr (e, c) ↦ inl (e, c, rw c refl)
  ]

-- A deletion deletes the first node with that internal address, and only that one; it returns nil
-- and deletes nothing where no node has it.
pub delete_node_at_lem :
    (nodes : Nodes) (addr : String) (list : List Node) (h : List Event)
    → nodes.connect ≡ ok tt
    → nodes.list ≡ ok list
    → (All (λ n. node_at addr n ≡ false) list × (delete_node_at nodes addr h ≡ (h, ok tt)))
      ⊎ ((n : Node) × FirstOf (node_at addr) list (some n)
          × (delete_node_at nodes addr h
              ≡ (deleted n.name ∷ h, done (not_deleted n.name) (nodes.delete n.name))))
unfolding delete_node_at
delete_node_at_lem nodes addr list h c l =
    rw c (rw l (found (first_of (node_at addr) list) (first_of_lem (node_at addr) list)))
  where
    found :
        (o : Option Node)
        → FirstOf (node_at addr) list o
        → (All (λ n. node_at addr n ≡ false) list × (delete_found nodes o h ≡ (h, ok tt)))
          ⊎ ((n : Node) × FirstOf (node_at addr) list (some n)
              × (delete_found nodes o h
                  ≡ (deleted n.name ∷ h, done (not_deleted n.name) (nodes.delete n.name))))
    found none f = inl (f, refl)
    found (some n) f = inr (n, f, refl)
