-- ===== src/Tinq/Segment/Tests.antt =====
-- A node at 10.0.0.1 answers the probe.
use talos_in_qemu.Prelude.{ℕ, ◌≡◌, ◌↔◌, refl, none, some, List, [], ◌∷◌, ◌++◌}
use talos_in_qemu.Netip.{v4, addr_eq}
use talos_in_qemu.Platform.Image.{at, slice, take, drop}
use talos_in_qemu.Platform.Image.Bounds.{Is}
use talos_in_qemu.Tinq.Segment.{probe_mac, arp_reply_from, reply_body, uint16_be}
use talos_in_qemu.Tinq.Segment.Arp.{IsReply, arp_reply_from_lem}

abbrev node_mac : List ℕ
node_mac = 82 ∷ 84 ∷ 0 ∷ 0 ∷ 0 ∷ 1 ∷ []

abbrev reply : List ℕ
reply =
    probe_mac
    ++ (node_mac
        ++ (8
            ∷ 6
            ∷ 0
            ∷ 1
            ∷ 8
            ∷ 0
            ∷ 6
            ∷ 4
            ∷ 0
            ∷ 2
            ∷ (node_mac ++ (10 ∷ 0 ∷ 0 ∷ 1 ∷ (probe_mac ++ (0 ∷ 0 ∷ 0 ∷ 0 ∷ []))))))

reply_taken : arp_reply_from reply (v4 167772161) ≡ some (some node_mac)
unfolding arp_reply_from reply_body uint16_be at slice take drop addr_eq
reply_taken = refl

other_sender : arp_reply_from reply (v4 167772162) ≡ some none
unfolding arp_reply_from reply_body uint16_be at slice take drop addr_eq
other_sender = refl

arp_reply_from_lem_example :
    Is (arp_reply_from reply (v4 167772161))
    × ((mac : List ℕ)
        → (arp_reply_from reply (v4 167772161) ≡ some (some mac))
          ↔ IsReply reply (v4 167772161) mac)
arp_reply_from_lem_example = arp_reply_from_lem reply (v4 167772161)
