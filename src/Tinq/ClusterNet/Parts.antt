-- ===== src/Tinq/ClusterNet/Parts.antt =====
-- The four parts of a cluster network's block, each with the test that accepts it.
use talos_in_qemu.Prelude.{
  ℕ, ◌+◌, ◌≤◌, ◌<◌, ◌≡◌, refl, ◌≢◌, ◌↔◌, ◌⊎◌, inl, inr, true, false, Option, none, some, List, [],
  ◌∷◌, All, arith, eq_iff, str_eq, Bool-cases, ok,
}
use talos_in_qemu.Manifest.{ℤ, pos, negsuc, Value, Table, field, str, to_int}
use talos_in_qemu.Netip.{
  Addr, invalid, v4, v6, Prefix, Parsers, FitsPrefix, is4, addr_eq, prefix_eq, masked, contains,
  overlaps, size4, v4_max,
}
use talos_in_qemu.Netip.Segment.{base, contains_iff, contains-next_iff}
use talos_in_qemu.Netip.Overlap.{apart}
use talos_in_qemu.Cluster.Network.Usable.{v4_prefix, v4_cases, contains_ipv4}
use talos_in_qemu.Tinq.ClusterNet.{
  Reserved, slirp_net, scoped_multicast, in_range, check_apart, check_cidr, check_address,
  check_group, check_port,
}

-- No address lies in both.
abbrev pub Free : Prefix → Prefix → Type 0
Free p o = (x : ℕ) → contains p (v4 x) ≡ true → contains o (v4 x) ≡ false

abbrev pub Fitting : Prefix → Type 0
Fitting o = FitsPrefix o.addr o.bits

abbrev Family : Option Prefix → Type 0
Family o =
    ((bits : ℕ) × (a : ℕ) × (o ≡ some (v4_prefix bits a)))
    ⊎ ((o ≡ none) ⊎ ((p : Prefix) × (o ≡ some p) × (is4 p.addr ≡ false)))

prefix_cases : (o : Option Prefix) → Family o
prefix_cases none = inr (inl refl)
prefix_cases (some p) = by_family p.addr p.bits
  where
    by_family : (a : Addr) (b : ℕ) → Family (some (record { addr = a; bits = b }))
    by_family invalid b = inr (inr (record { addr = invalid; bits = b }, refl, refl))
    by_family (v4 n) b = inl (b, n, refl)
    by_family (v6 n z) b = inr (inr (record { addr = v6 n z; bits = b }, refl, refl))

scoped_ends : (base 8 4009754624 ≡ 4009754624) × (size4 8 ≡ 16777216)
unfolding size4
scoped_ends = (refl, refl)

-- 239.0.0.0/8 from its first address to its last.
scoped_iff :
    (g : ℕ) → (contains scoped_multicast (v4 g) ≡ true) ↔ ((4009754624 ≤ g) × (g < 4026531840))
scoped_iff g =
    let (first, size) = scoped_ends in ground (arith, contains_iff 8 4009754624 g (omega arith))

module _ (net : Parsers) (reserved : Reserved) where
  pub check_apart_iff :
      (p a : ℕ)
      → p ≤ 32
      → (os : List Prefix) → All Fitting os
      → (check_apart net reserved (v4_prefix p a) os ≡ ok tt) ↔ All (Free (v4_prefix p a)) os
  check_apart_iff p a h [] f = (λ _. tt, λ _. refl)
  check_apart_iff p a h (o ∷ os) (f, fs) =
      let (free, clear) = apart p a o h f in
      let (to, from) = check_apart_iff p a h os fs in
      elim (Bool-cases (overlaps (v4_prefix p a) o)) [
        | inl e ↦ (λ g. absurd (ground arith), λ (g, gs). absurd (ground (arith, clear g)))
        | inr e ↦ (λ g. (free e, to (ground arith)), λ (g, gs). ground (arith, from gs))
      ]

  -- The segment: an IPv4 prefix of at most 30 bits with no host bits, free of the networks that are
  -- taken.
  pub record IsSegment (raw : Table) (cidr : Prefix) : Type 0 where
    pub bits : ℕ
    pub first : ℕ
    pub parses : net.parse_prefix (str (field "cidr" raw) "") ≡ some (v4_prefix bits first)
    pub given : str (field "cidr" raw) "" ≢ ""
    pub same : cidr ≡ v4_prefix bits first
    pub small : bits ≤ 30
    pub aligned : base bits first ≡ first
    pub free : All (Free (v4_prefix bits first)) (slirp_net ∷ reserved.pod ∷ reserved.service ∷ [])

  module _ (raw : Table) where
    pub cidr_ipv4 :
        (p : Prefix)
        → check_cidr net reserved raw ≡ ok p
        → (bits : ℕ) × (a : ℕ) × (net.parse_prefix (str (field "cidr" raw) "")
            ≡ some (v4_prefix bits a))
    unfolding check_cidr
    cidr_ipv4 p h = elim (prefix_cases (net.parse_prefix (str (field "cidr" raw) ""))) [
      | inl there ↦ there
      | inr (inl e) ↦ absurd (ground arith)
      | inr (inr (b, e, six)) ↦ absurd (ground arith)
    ]

    module _ (bits a : ℕ)
        (e : net.parse_prefix (str (field "cidr" raw) "") ≡ some (v4_prefix bits a))
        (small : bits ≤ 32) where
      pub taken : All Fitting (slirp_net ∷ reserved.pod ∷ reserved.service ∷ [])
      taken = ((omega arith, omega arith), (reserved.pod_fits, (reserved.service_fits, tt)))

      pub cidr_iff : (check_cidr net reserved raw ≡ ok (v4_prefix bits a)) ↔ (
          (str (field "cidr" raw) "" ≢ "")
          × (bits ≤ 30)
          × (base bits a ≡ a)
          × (check_apart net reserved
                (v4_prefix bits a)
                (slirp_net ∷ reserved.pod ∷ reserved.service ∷ [])
              ≡ ok tt))
      unfolding check_cidr prefix_eq addr_eq masked
      cidr_iff = ground (arith, eq_iff (str (field "cidr" raw) "") "")

      -- A host of the segment.
      module _ (aligned : base bits a ≡ a) (below : a < v4_max) where
        pub address_iff :
            (x : ℕ)
            → net.parse_addr (str (field "address" raw) "") ≡ some (v4 x)
            → x < v4_max
            → (check_address net reserved raw (v4_prefix bits a) ≡ ok (v4 x))
              ↔ ((a < x) × (x + 1 < a + size4 bits))
        unfolding check_address addr_eq
        address_iff x there fits =
            ground (arith, contains_iff bits a x small, contains-next_iff bits a x small)

    pub address_ipv4 :
        (bits a : ℕ) (addr : Addr)
        → check_address net reserved raw (v4_prefix bits a) ≡ ok addr
        → (x : ℕ) × (net.parse_addr (str (field "address" raw) "") ≡ some (v4 x)) × (addr ≡ v4 x)
    unfolding check_address
    address_ipv4 bits a addr h = elim (v4_cases (net.parse_addr (str (field "address" raw) ""))) [
      | inl (x, e) ↦ (x, e, ground arith)
      | inr (inl e) ↦ absurd (ground arith)
      | inr (inr (b, e, six)) ↦ absurd (ground arith)
    ]

  -- The group: none is given, or one of 239.0.0.0/8.
  abbrev pub IsGroup : Table → Addr → Type 0
  IsGroup raw group =
      ((str (field "group" raw) "" ≡ "") × (group ≡ invalid))
      ⊎ ((g : ℕ) × (str (field "group" raw) "" ≢ "")
          × (net.parse_addr (str (field "group" raw) "") ≡ some (v4 g))
          × (group ≡ v4 g)
          × (4009754624 ≤ g)
          × (g < 4026531840))

  pub IsGroup-iff :
      (raw : Table) (group : Addr) → (check_group net reserved raw ≡ ok group) ↔ IsGroup raw group
  unfolding check_group
  IsGroup-iff raw group = elim (Bool-cases (str_eq (str (field "group" raw) "") "")) [
    | inl e ↦ (
      λ h. inl (ground (arith, eq_iff (str (field "group" raw) "") ""), ground arith),
      λ c. elim c [
        | inl (empty, same) ↦ ground arith
        | inr (k, given, _, _, _, _) ↦
            absurd (ground (arith, eq_iff (str (field "group" raw) "") ""))
      ],
    )
    | inr e ↦ elim (v4_cases (net.parse_addr (str (field "group" raw) ""))) [
      | inl (g, there) ↦
          let inside = scoped_iff g in
          (
            λ h. inr (
              g,
              ground (arith, eq_iff (str (field "group" raw) "") ""),
              there,
              ground arith,
              ground (arith, inside),
              ground (arith, inside),
            ),
            λ c. elim c [
              | inl (empty, same) ↦ absurd (ground (arith, eq_iff (str (field "group" raw) "") ""))
              | inr (k, given, at, same, lo, hi) ↦ ground (arith, inside)
            ],
          )
      | inr (inl there) ↦ (
        λ h. absurd (ground arith),
        λ c. elim c [
          | inl (empty, same) ↦ absurd (ground (arith, eq_iff (str (field "group" raw) "") ""))
          | inr (k, given, at, same, lo, hi) ↦ absurd (ground arith)
        ],
      )
      | inr (inr (b, there, six)) ↦ (
        λ h. absurd (ground (arith, contains_ipv4 8 4009754624 b six)),
        λ c. elim c [
          | inl (empty, same) ↦ absurd (ground (arith, eq_iff (str (field "group" raw) "") ""))
          | inr (k, given, at, same, lo, hi) ↦ absurd (ground arith)
        ],
      )
    ]
  ]

  abbrev pub IsPort : Option Value → ℕ → Type 0
  IsPort given port =
      ((given ≡ none) × (port ≡ 0))
      ⊎ ((v : Value) × (given ≡ some v)
          × (to_int (some v) ≡ pos port)
          × (1024 ≤ port)
          × (port ≤ 65535))

  in_range_iff :
      (n : ℤ) (port : ℕ)
      → (in_range n ≡ ok port) ↔ ((n ≡ pos port) × (1024 ≤ port) × (port ≤ 65535))
  in_range_iff (pos n) port = ground arith
  in_range_iff (negsuc n) port = ground arith

  pub IsPort-iff :
      (given : Option Value) (port : ℕ)
      → (check_port net reserved given ≡ ok port) ↔ IsPort given port
  IsPort-iff none port = (
    λ h. inl (refl, ground arith),
    λ c. elim c [ inl (e, z) ↦ ground arith | inr (v, e, _, _, _) ↦ absurd (ground arith) ],
  )
  IsPort-iff (some v) port =
      let (to, from) = in_range_iff (to_int (some v)) port in
      (
        λ h. let (same, lo, hi) = to h in inr (v, refl, same, lo, hi),
        λ c. elim c [
          | inl (e, z) ↦ absurd (ground arith)
          | inr (u, e, n, lo, hi) ↦ from (cc, lo, hi)
        ],
      )
