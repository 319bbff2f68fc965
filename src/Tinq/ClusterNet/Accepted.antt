-- ===== src/Tinq/ClusterNet/Accepted.antt =====
-- Exactly the usable blocks are accepted by specClusterNetwork.
use mathlib.Core.Path.{subst}
use talos_in_qemu.Prelude.{
  ℕ, ◌+◌, ◌≤◌, ◌<◌, ◌≡◌, refl, sym, ◌↔◌, inl, inr, some, [], ◌∷◌, arith, Option-cases, Result, ok,
  err, bind-eq-ok, ◌>>=◌,
}
use talos_in_qemu.Manifest.{Table, field, Machine, str}
use talos_in_qemu.Netip.{Addr, v4, Prefix, Parsers, size4}
use talos_in_qemu.Cluster.Network.Usable.{v4_prefix}
use talos_in_qemu.Tinq.ClusterNet.{
  ClusterNetwork, Refusal, Reserved, default_cluster_network_name, slirp_net, check_cidr,
  check_address, check_group, check_port, parse_block, spec_cluster_network,
}
use talos_in_qemu.Tinq.ClusterNet.Parts.{
  IsSegment, IsGroup, IsPort, cidr_ipv4, cidr_iff, taken, check_apart_iff, address_iff,
  address_ipv4, IsGroup-iff, IsPort-iff,
}

four-eq-ok :
    {A B C D R : Type 0} (f : Result Refusal A) (g : A → Result Refusal B) (h : Result Refusal C)
    (k : Result Refusal D) (mk : A → B → C → D → R) (r : R)
    → (f >>= λ a. g a >>= λ b. h >>= λ c. k >>= λ d. ok (mk a b c d)) ≡ ok r
    → (a : A) × (b : B) × (c : C) × (d : D) × (f ≡ ok a)
      × (g a ≡ ok b)
      × (h ≡ ok c)
      × (k ≡ ok d)
      × (mk a b c d ≡ r)
four-eq-ok f g h k mk r e =
    let (a, e₁, r₁) = bind-eq-ok f _ e in
    let (b, e₂, r₂) = bind-eq-ok (g a) _ r₁ in
    let (c, e₃, r₃) = bind-eq-ok h _ r₂ in
    let (d, e₄, r₄) = bind-eq-ok k _ r₃ in (a, b, c, d, e₁, e₂, e₃, e₄, cc)

four-ok :
    {A B C D R : Type 0} (f : Result Refusal A) (g : A → Result Refusal B) (h : Result Refusal C)
    (k : Result Refusal D) (mk : A → B → C → D → R) {a : A} {b : B} {c : C} {d : D}
    → f ≡ ok a
    → g a ≡ ok b
    → h ≡ ok c
    → k ≡ ok d
    → (f >>= λ a. g a >>= λ b. h >>= λ c. k >>= λ d. ok (mk a b c d)) ≡ ok (mk a b c d)
four-ok f g h k mk e₁ e₂ e₃ e₄ = rw (e₁, e₂, e₃, e₄)

some_eq :
    {A : Type 0} (r : Result Refusal A) (a : A) → (r >>= λ x. ok (some x)) ≡ ok (some a) → r ≡ ok a
some_eq (ok x) a h = cc
some_eq (err e) a h = cc

module _ (net : Parsers) (reserved : Reserved) where
  -- The block is usable: its segment, its address a host of it, its group and its port.
  pub record IsUsable (raw : Table) (cn : ClusterNetwork) : Type 0 where
    pub segment : IsSegment net reserved raw cn.cidr
    pub host : ℕ
    pub host_parses : net.parse_addr (str (field "address" raw) "") ≡ some (v4 host)
    pub host_same : cn.address ≡ v4 host
    pub after_first : segment.first < host
    pub before_last : host + 1 < segment.first + size4 segment.bits
    pub group : IsGroup net reserved raw cn.group
    pub port : IsPort net reserved (field "port" raw) cn.port
    pub name : cn.name ≡ str (field "name" raw) default_cluster_network_name

  only :
      (raw : Table) (bits a : ℕ) (p : Prefix)
      → net.parse_prefix (str (field "cidr" raw) "") ≡ some (v4_prefix bits a)
      → check_cidr net reserved raw ≡ ok p
      → p ≡ v4_prefix bits a
  unfolding check_cidr
  only raw bits a p e h = ground arith

  segment_iff :
      (raw : Table) (p : Prefix)
      → (check_cidr net reserved raw ≡ ok p) ↔ IsSegment net reserved raw p
  segment_iff raw p = (there, back)
    where
      there : check_cidr net reserved raw ≡ ok p → IsSegment net reserved raw p
      there h =
          let (bits, a, e) = cidr_ipv4 net reserved raw p h in
          let (below, small) =
            net.parse_prefix_fits (str (field "cidr" raw) "") (v4_prefix bits a) e in
          let same : p ≡ v4_prefix bits a = only raw bits a p e h in
          let (given, few, aligned, clear) =
            (cidr_iff net reserved raw bits a e small).0 (rw same at h) in
          record {
            bits = bits;
            first = a;
            parses = e;
            given = given;
            same = same;
            small = few;
            aligned = aligned;
            free =
                (check_apart_iff net reserved bits a small
                    (slirp_net ∷ reserved.pod ∷ reserved.service ∷ [])
                    (taken net reserved raw bits a e small)).0
                  clear;
          }

      back : IsSegment net reserved raw p → check_cidr net reserved raw ≡ ok p
      back s =
          let small : s.bits ≤ 32 = omega (arith, s.small) in
          let free =
            (check_apart_iff net reserved s.bits s.first small
                (slirp_net ∷ reserved.pod ∷ reserved.service ∷ [])
                (taken net reserved raw s.bits s.first s.parses small)).1
              s.free in
          rw s.same (
            (cidr_iff net reserved raw s.bits s.first s.parses small).1
              (s.given, s.small, s.aligned, free))

  -- The four parts of a block that is accepted.
  parts :
      (raw : Table) (cn : ClusterNetwork)
      → parse_block net reserved raw ≡ ok cn
      → (p : Prefix) × (addr : Addr) × (group : Addr) × (port : ℕ) × (check_cidr net reserved raw
          ≡ ok p)
        × (check_address net reserved raw p ≡ ok addr)
        × (check_group net reserved raw ≡ ok group)
        × (check_port net reserved (field "port" raw) ≡ ok port)
        × (record {
          name = str (field "name" raw) default_cluster_network_name;
          cidr = p;
          address = addr;
          group = group;
          port = port;
        }
            ≡ cn)
  unfolding parse_block
  parts raw cn h =
      four-eq-ok (check_cidr net reserved raw) (check_address net reserved raw)
        (check_group net reserved raw) (check_port net reserved (field "port" raw)) _ cn h

  block_sound :
      (raw : Table) (cn : ClusterNetwork) → parse_block net reserved raw ≡ ok cn → IsUsable raw cn
  block_sound raw cn h =
      let (p, addr, group, port, h₁, h₂, h₃, h₄, made) = parts raw cn h in
      subst (IsUsable raw) made (usable raw p addr group port h₁ h₂ h₃ h₄)
    where
      usable :
          (raw : Table) (p : Prefix) (addr group : Addr) (port : ℕ)
          → check_cidr net reserved raw ≡ ok p
          → check_address net reserved raw p ≡ ok addr
          → check_group net reserved raw ≡ ok group
          → check_port net reserved (field "port" raw) ≡ ok port
          → IsUsable raw (record {
            name = str (field "name" raw) default_cluster_network_name;
            cidr = p;
            address = addr;
            group = group;
            port = port;
          })
      usable raw p addr group port h₁ h₂ h₃ h₄ =
          let s = (segment_iff raw p).0 h₁ in
          let (x, at, is) = address_ipv4 net reserved raw s.bits s.first addr (rw s.same at h₂) in
          let (below, small) =
            net.parse_prefix_fits (str (field "cidr" raw) "") (v4_prefix s.bits s.first) s.parses in
          let (after, before) =
            (address_iff net reserved raw s.bits s.first s.parses small s.aligned below x at
                (net.parse_addr_fits (str (field "address" raw) "") (v4 x) at)).0
              (rw (s.same, is) at h₂) in
          record {
            segment = s;
            host = x;
            host_parses = at;
            host_same = is;
            after_first = after;
            before_last = before;
            group = (IsGroup-iff net reserved raw group).0 h₃;
            port = (IsPort-iff net reserved (field "port" raw) port).0 h₄;
            name = refl;
          }

  block_complete :
      (raw : Table) (cn : ClusterNetwork) → IsUsable raw cn → parse_block net reserved raw ≡ ok cn
  unfolding parse_block
  block_complete raw cn u =
      let s = u.segment in
      let (below, small) =
        net.parse_prefix_fits (str (field "cidr" raw) "") (v4_prefix s.bits s.first) s.parses in
      let fits = net.parse_addr_fits (str (field "address" raw) "") (v4 u.host) u.host_parses in
      let hosted =
        (address_iff net reserved raw s.bits s.first s.parses small s.aligned below u.host
            u.host_parses fits).1
          (u.after_first, u.before_last) in
      let named =
        four-ok (check_cidr net reserved raw) (check_address net reserved raw)
          (check_group net reserved raw) (check_port net reserved (field "port" raw))
          (λ p addr group port. record {
            name = str (field "name" raw) default_cluster_network_name;
            cidr = p;
            address = addr;
            group = group;
            port = port;
          })
          ((segment_iff raw cn.cidr).1 s) (rw (s.same, u.host_same) hosted)
          ((IsGroup-iff net reserved raw cn.group).1 u.group)
          ((IsPort-iff net reserved (field "port" raw) cn.port).1 u.port) in
      subst
        (λ z.
          parse_block net reserved raw
          ≡ ok (record {
            name = z;
            cidr = cn.cidr;
            address = cn.address;
            group = cn.group;
            port = cn.port;
          }))
        (sym u.name) named

  -- specClusterNetwork accepts a block, with that answer, exactly when the block is usable.
  parse_block_iff :
      (raw : Table) (cn : ClusterNetwork) → (parse_block net reserved raw ≡ ok cn) ↔ IsUsable raw cn
  parse_block_iff raw cn = (block_sound raw cn, block_complete raw cn)

  -- A machine has a cluster network exactly when its block is there and usable.
  pub spec_cluster_network_iff :
      (m : Machine) (cn : ClusterNetwork)
      → (spec_cluster_network net reserved m ≡ ok (some cn)) ↔ (
          (raw : Table) × (m.nested_map ("spec" ∷ "clusterNetwork" ∷ []) ≡ some raw)
          × IsUsable raw cn)
  unfolding spec_cluster_network
  spec_cluster_network_iff m cn =
      elim (Option-cases (m.nested_map ("spec" ∷ "clusterNetwork" ∷ []))) [
        | inl e ↦ (λ h. absurd (ground arith), λ (raw, at, _). absurd (ground arith))
        | inr (raw, e) ↦
            let (to, from) = parse_block_iff raw cn in
            (
              λ h. (raw, e, to (some_eq (parse_block net reserved raw) cn (rw e at h))),
              λ (given, at, u). rw (at, (parse_block_iff given cn).1 u),
            )
      ]
