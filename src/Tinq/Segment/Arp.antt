-- ===== src/Tinq/Segment/Arp.antt =====
-- What counts as a reply to the probe.
use talos_in_qemu.Prelude.{
  ℕ, ◌+◌, ◌≤◌, ◌≡◌, ◌↔◌, refl, true, false, Option, none, some, List, ◌==◌, ◌&&◌, if◌then◌else◌,
  ltb, length, arith, Bool-cases, inl, inr,
}
use talos_in_qemu.Netip.{Addr, addr_eq}
use talos_in_qemu.Platform.Image.{at, take, drop, slice}
use talos_in_qemu.Platform.Image.Bounds.{Is, bind-Is, at-Is, slice-Is}
use talos_in_qemu.Tinq.Segment.{
  uint16_be, addr_from, arp_probe, probe_mac, reply_body, arp_reply_from,
}

-- The socket hears its own datagrams, so the probe comes back to it: whatever it asks for and
-- whoever is waited for, it is not taken for a reply.
pub own_probe_ignored :
    (target : ℕ) (sender : Addr) → arp_reply_from (arp_probe probe_mac target) sender ≡ some none
unfolding arp_reply_from arp_probe reply_body at take drop slice uint16_be
own_probe_ignored target sender = refl

uint16-Is : (b : List ℕ) → 2 ≤ length b → Is (uint16_be b)
unfolding uint16_be
uint16-Is b h =
    bind-Is _ _ (at-Is b 0 (omega arith))
      λ hi _. bind-Is _ _ (at-Is b 1 (omega arith)) λ lo _. (_, refl)

-- The number in the two bytes at `i`.
abbrev pub Reads : List ℕ → ℕ → ℕ → Type 0
Reads frame i n = (b : List ℕ) × (slice frame i (i + 2) ≡ some b) × (uint16_be b ≡ some n)

Reads-some : (frame : List ℕ) (i : ℕ) → i + 2 ≤ length frame → (n : ℕ) × Reads frame i n
Reads-some frame i h =
    let (b, e, n) = slice-Is frame i (i + 2) (omega arith) h in
    let (v, f) = uint16-Is b (omega arith) in (v, (b, e, f))

-- An ARP reply by the sender, with this MAC.
abbrev pub IsReply : List ℕ → Addr → List ℕ → Type 0
IsReply frame sender mac =
    (42 ≤ length frame)
    × Reads frame 12 2054
    × Reads frame 20 2
    × ((spa : List ℕ) × (slice frame 28 32 ≡ some spa) × (addr_eq (addr_from spa) sender ≡ true))
    × (slice frame 22 28 ≡ some mac)

module _ (frame : List ℕ) (sender : Addr) where
  -- What a frame says that is long enough.
  record Said : Type 0 where
    long : 42 ≤ length frame
    ethertype : ℕ
    ethertype_bytes : List ℕ
    at_12 : slice frame 12 14 ≡ some ethertype_bytes
    reads_12 : uint16_be ethertype_bytes ≡ some ethertype
    op : ℕ
    op_bytes : List ℕ
    at_20 : slice frame 20 22 ≡ some op_bytes
    reads_20 : uint16_be op_bytes ≡ some op
    spa : List ℕ
    at_28 : slice frame 28 32 ≡ some spa
    mac : List ℕ
    at_22 : slice frame 22 28 ≡ some mac

  said : 42 ≤ length frame → Said
  said h =
      let (t, (tb, te, tv)) = Reads-some frame 12 (omega arith) in
      let (o, (ob, oe, ov)) = Reads-some frame 20 (omega arith) in
      let (s, se, sn) = slice-Is frame 28 32 (omega arith) (omega arith) in
      let (m, me, mn) = slice-Is frame 22 28 (omega arith) (omega arith) in
      record {
        long = h;
        ethertype = t;
        ethertype_bytes = tb;
        at_12 = te;
        reads_12 = tv;
        op = o;
        op_bytes = ob;
        at_20 = oe;
        reads_20 = ov;
        spa = s;
        at_28 = se;
        mac = m;
        at_22 = me;
      }

  -- What the tests decide then.
  answer : Said → Option (List ℕ)
  answer s =
      if s.ethertype == 2054 && s.op == 2 && addr_eq (addr_from s.spa) sender
      then some s.mac
      else none

  decided : (s : Said) → arp_reply_from frame sender ≡ some (answer s)
  unfolding arp_reply_from reply_body answer
  decided s =
      let long : ltb (length frame) 42 ≡ false = ground (arith, s.long) in
      rw (long, s.at_12, s.reads_12, s.at_20, s.reads_20, s.at_28, s.at_22) (ground arith)

  short : ltb (length frame) 42 ≡ true → arp_reply_from frame sender ≡ some none
  unfolding arp_reply_from
  short e = rw e refl

  IsReply-iff :
      (s : Said) (mac : List ℕ)
      → (arp_reply_from frame sender ≡ some (some mac)) ↔ IsReply frame sender mac
  unfolding answer
  IsReply-iff s mac = (
    λ h.
        let e : answer s ≡ some mac = ground (arith, decided s) in
        (
          s.long,
          (s.ethertype_bytes, s.at_12, ground arith),
          (s.op_bytes, s.at_20, ground arith),
          (s.spa, s.at_28, ground arith),
          ground arith,
        ),
    λ (long, (tb, te, tv), (ob, oe, ov), (spa, se, same), me). ground (arith, decided s),
  )

  -- Reading a frame never goes out of range, whatever its bytes are. A MAC is returned exactly for an
  -- ARP reply whose sender's protocol address is the one that is waited for, and it is the reply's
  -- sender's hardware address.
  pub arp_reply_from_lem :
      Is (arp_reply_from frame sender)
      × ((mac : List ℕ)
          → (arp_reply_from frame sender ≡ some (some mac)) ↔ IsReply frame sender mac)
  arp_reply_from_lem = elim (Bool-cases (ltb (length frame) 42)) [
    | inl e ↦ (
      (none, short e),
      λ mac. (λ h. absurd (ground (arith, short e)), λ (long, _, _, _, _). absurd (ground arith)),
    )
    | inr e ↦ let s = said (ground arith) in ((answer s, decided s), IsReply-iff s)
  ]
