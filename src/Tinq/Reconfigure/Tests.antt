-- ===== src/Tinq/Reconfigure/Tests.antt =====
-- The guest of Tinq.Options.Tests and the machine of Tinq.Adopt.Tests, reconfigured.
use talos_in_qemu.Prelude.{◌≡◌, ◌≢◌, refl, String, true, false, some, ok}
use talos_in_qemu.Netip.Samples.{two_addresses}
use talos_in_qemu.Cluster.Network.{check_network}
use talos_in_qemu.Cluster.Identity.{ClusterNetwork, api_address, installed_endpoint}
use talos_in_qemu.Cluster.Up.{config_input}
use talos_in_qemu.Cluster.Up.Effects.{JoinOptions}
use talos_in_qemu.Cluster.Up.Preflight.{preflight}
use talos_in_qemu.Cluster.Up.Tests.{plain, fresh}
use talos_in_qemu.Cluster.Reconfigure.Tests.{serving}
use talos_in_qemu.Tinq.Endpoints.{is_baremetal, spec_baremetal}
use talos_in_qemu.Tinq.Join.Tests.{quiet}
use talos_in_qemu.Tinq.Options.Tests.{readers, maker, guest, given, read}
use talos_in_qemu.Tinq.Adopt.Tests.{desk, answering, adopted, asked, accepted}
use talos_in_qemu.Tinq.Reconfigure.{own_disk}
use talos_in_qemu.Tinq.Reconfigure.Same.{without_pins, Regenerates, hardware-Regenerates}
use talos_in_qemu.Tinq.Reconfigure.Guest.{guest-Regenerates}

a_guest : is_baremetal guest ≡ false
unfolding is_baremetal spec_baremetal
a_guest = refl

guest_passes : preflight two_addresses plain given ≡ ok ("127.0.0.1", "127.0.0.1")
unfolding preflight api_address check_network installed_endpoint
guest_passes = refl

no_network :
    (n : ClusterNetwork)
    → given.cluster_network ≡ some n
    → serving.read_endpoint ≡ ok (config_input two_addresses plain fresh given "127.0.0.1").endpoint
no_network n h = absurd (cc)

guest-Regenerates_example :
    Regenerates plain readers maker quiet serving fresh guest
      (true, 0)
      "v1.14.1"
      "s"
      (record (without_pins (config_input two_addresses plain fresh given "127.0.0.1") "s") {
        system_disk = own_disk;
      })
guest-Regenerates_example =
    guest-Regenerates readers maker quiet plain serving fresh 3 guest (true, 0) given "127.0.0.1"
      "127.0.0.1" "s" a_guest read guest_passes no_network

desk_passes : preflight two_addresses plain adopted ≡ ok ("10.0.0.5", "10.0.0.5")
unfolding preflight api_address check_network installed_endpoint
desk_passes = refl

no_join : (k : JoinOptions) → adopted.join ≡ some k → k.cluster_endpoint ≢ ""
no_join k h = absurd (cc)

hardware-Regenerates_example :
    (◌≡◌ {A = String} "" "")
    × Regenerates plain readers maker quiet serving fresh desk
        (true, 0)
        "v1.14.1"
        "s"
        (without_pins (config_input two_addresses plain fresh adopted "10.0.0.5") "s")
hardware-Regenerates_example =
    hardware-Regenerates plain readers maker quiet serving fresh answering desk (true, 0) asked
      adopted "10.0.0.5" "10.0.0.5" "s" accepted desk_passes no_join
