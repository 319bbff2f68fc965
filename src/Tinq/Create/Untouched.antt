-- ===== src/Tinq/Create/Untouched.antt =====
-- What create does before it makes anything, and what QEMU is launched with in the end.
use talos_in_qemu.Prelude.{
  ℕ, suc, ◌≡◌, refl, ◌⊎◌, inl, inr, String, Option, none, List, [], ◌∷◌, arith, Result, ok, err,
}
use talos_in_qemu.Manifest.{Machine}
use talos_in_qemu.Tinq.ClusterNet
use talos_in_qemu.Tinq.ClusterNet.{ClusterNetwork, spec_cluster_network}
use talos_in_qemu.Tinq.ClusterNet.Multicast.{user_nic_device, cluster_nic_args}
use talos_in_qemu.Tinq.Driver.{found, not_exist}
use talos_in_qemu.Tinq.Site.{SiteRefusal, check_site}
use talos_in_qemu.Tinq.Site.Forwards.{Forward, render}
use talos_in_qemu.Platform.Detect.{Platform}
use talos_in_qemu.Tinq.Create.{Launch, qemu_args}
use talos_in_qemu.Tinq.Create.Run.{CreateFailure, failed, site_refused, Maker, Run, trim_i, create}

module _ {W : Type 0} where
  module _ (maker : Maker W) (extra_path : String → ℕ → String) where
    -- A disk that is there, or was made with that size.
    abbrev pub IsReady : String → String → Type 0
    IsReady path size =
        (u : W) × ((maker.stat path u ≡ found)
          ⊎ ((maker.stat path u ≡ not_exist)
              × ((v : W) × (maker.qemu_img path (trim_i size) u ≡ (v, none)))))

    -- For each size from index `i` on a disk of the directory, by its index, that is ready.
    abbrev pub Disks : String → ℕ → List String → List String → Type 0
    Disks dir i [] [] = Unit
    Disks dir i (size ∷ sizes) (path ∷ paths) =
        (path ≡ extra_path dir i) × IsReady path size × Disks dir (suc i) sizes paths
    Disks dir i _ _ = ⊥

    -- QEMU was launched, last, for the machine: with those forwards, its NICs and those extra
    -- disks.
    abbrev pub Launched : Machine → List Forward → List String → W → Type 0
    Launched m fs extra_paths v =
        (l : Launch) × (cn : Option ClusterNetwork) × (u : W) × (spec_cluster_network maker.net
            maker.reserved m
          ≡ ok cn)
        × (maker.launch l.host.qemu_binary (qemu_args maker.numbers l) u ≡ (v, none))
        × (l.extra_paths ≡ extra_paths)
        × (l.netdev ≡ render maker.hostfwd "user,id=n0" fs)
        × (l.nic ≡ user_nic_device maker.sha m cn)
        × (l.cluster_nic ≡ cluster_nic_args maker.sha maker.socket_netdev m cn)

    -- Where the host cannot be detected, or the site refuses the machine, nothing is made.
    pub create_refused :
        (m : Machine) (dir : String) (w : W)
        → ((e : String) × (maker.detect w ≡ err e))
          ⊎ ((e : SiteRefusal) × (check_site maker.lower maker.clean maker.net maker.reserved
                  (maker.list_site m w)
                  dir
                  m
                ≡ err e))
        → (f : CreateFailure) × (create maker extra_path m dir w ≡ (w, err f))
    unfolding create
    create_refused m dir w c = by_host (maker.detect w) refl c
      where
        by_host :
            (r : Result String Platform)
            → maker.detect w ≡ r
            → ((e : String) × (maker.detect w ≡ err e))
              ⊎ ((e : SiteRefusal) × (check_site maker.lower maker.clean maker.net maker.reserved
                      (maker.list_site m w)
                      dir
                      m
                    ≡ err e))
            → (f : CreateFailure) × (create maker extra_path m dir w ≡ (w, err f))
        by_host (err e) at c = (failed e, rw (create, at) refl)
        by_host (ok p) at (inl (e, there)) = absurd (ground arith)
        by_host (ok p) at (inr (e, there)) = (site_refused e, rw (create, at, there) refl)
