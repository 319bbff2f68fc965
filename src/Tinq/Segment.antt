-- ===== src/Tinq/Segment.antt =====
-- cmd/tinq/segment.go: the ARP probe of a cluster network's segment and the reading of a reply.
-- A read out of range is Go's panic, and `none` here.
pub mod Arp
mod Tests
use talos_in_qemu.Prelude.{
  ℕ, suc, zero, ◌+◌, ◌*◌, ◌/◌, ◌%◌, Bool, true, false, Option, none, some, List, [], ◌∷◌, ◌++◌, not,
  ◌==◌, ltb, length, if◌then◌else◌,
}
use talos_in_qemu.Netip.{Addr, invalid, v4, v6, addr_eq}
use talos_in_qemu.Platform.Image.{at, slice, ◌>>=◌}

-- Addr.As4
abbrev pub as4 : ℕ → List ℕ
as4 a = a / 16777216 % 256 ∷ a / 65536 % 256 ∷ a / 256 % 256 ∷ a % 256 ∷ []

-- binary.BigEndian.Uint16, which panics on a slice that is too short.
unfoldable pub uint16_be : List ℕ → Option ℕ
unfolding at
uint16_be b = at b 0 >>= λ hi. at b 1 >>= λ lo. some (256 * hi + lo)

-- netip.AddrFromSlice of four bytes.
abbrev pub addr_from : List ℕ → Addr
addr_from (a ∷ b ∷ c ∷ d ∷ []) = v4 (16777216 * a + 65536 * b + 256 * c + d)
addr_from _ = invalid

-- arpProbe
unfoldable pub arp_probe : List ℕ → ℕ → List ℕ
arp_probe src target =
    255
    ∷ 255
    ∷ 255
    ∷ 255
    ∷ 255
    ∷ 255
    ∷ (src
        ++ (8
            ∷ 6
            ∷ 0
            ∷ 1
            ∷ 8
            ∷ 0
            ∷ 6
            ∷ 4
            ∷ 0
            ∷ 1
            ∷ (src ++ (0 ∷ 0 ∷ 0 ∷ 0 ∷ 0 ∷ 0 ∷ 0 ∷ 0 ∷ 0 ∷ 0 ∷ as4 target))))

-- probeMAC
abbrev pub probe_mac : List ℕ
probe_mac = 2 ∷ 116 ∷ 105 ∷ 110 ∷ 113 ∷ 1 ∷ []

-- The tests of arpReplyFrom after the first.
unfoldable pub reply_body : List ℕ → Addr → Option (Option (List ℕ))
unfolding slice uint16_be addr_eq
reply_body frame sender = slice frame 20 22 >>= λ op_bytes. uint16_be op_bytes >>= λ op.
    if not (op == 2)
    then some none
    else slice frame 28 32 >>= λ spa.
        if not (addr_eq (addr_from spa) sender)
        then some none
        else slice frame 22 28 >>= λ mac. some (some mac)

-- arpReplyFrom: the sender's MAC, or none.
unfoldable pub arp_reply_from : List ℕ → Addr → Option (Option (List ℕ))
unfolding reply_body slice uint16_be
arp_reply_from frame sender =
    if ltb (length frame) 42
    then some none
    else slice frame 12 14 >>= λ type_bytes. uint16_be type_bytes >>= λ ethertype.
        if not (ethertype == 2054) then some none else reply_body frame sender
