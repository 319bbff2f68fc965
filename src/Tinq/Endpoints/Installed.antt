-- ===== src/Tinq/Endpoints/Installed.antt =====
-- Where adopted hardware answers after the install.
use talos_in_qemu.Prelude.{arith, ◌≡◌, refl, String, none, some, ok, ℕ}
use talos_in_qemu.Manifest.{Machine}
use talos_in_qemu.Netip.{Parsers, v4}
use talos_in_qemu.Cluster.Network.{Network, ip, check_network}
use talos_in_qemu.Cluster.Network.Usable.{check_network_iff}
use talos_in_qemu.Tinq.Endpoints.{
  Texts, baremetal_network, baremetal_installed_addr, maintenance_addr,
}

module _ (net : Parsers) (texts : Texts) (m : Machine) where
  -- A machine whose static block CheckNetwork accepts answers, after the install, at the IPv4
  -- address of that block; one with no block stays where it was adopted.
  pub installed_addr_lem :
      ((n : Network) (maintenance : String)
        → baremetal_network m ≡ ok (some n)
        → check_network net (some n) maintenance ≡ ok tt
        → (a : ℕ) × (ip net (some n) ≡ ok (v4 a))
          × (baremetal_installed_addr net texts m ≡ texts.addr_text (v4 a)))
      × (baremetal_network m ≡ ok none → baremetal_installed_addr net texts m ≡ maintenance_addr m)
  unfolding baremetal_installed_addr ip
  installed_addr_lem = (
    λ n maintenance e h.
        let u = (check_network_iff net n maintenance).0 h in
        (u.address, rw u.address_parses refl, ground (arith, u.address_parses)),
    λ e. ground arith,
  )
