-- ===== src/Tinq/Create/Run.antt =====
-- cmd/tinq/main.go: create, resolveImage and ensureQcow2, as a run on the host.
-- Detecting the platform, the file system, qemu-img, swtpm and QEMU are fields of a `Maker`. The
-- warning about an image of another architecture changes nothing and is left out.
use Prim.Native.String.{len, slice}
use talos_in_qemu.Prelude.{
  ℕ, suc, ◌-◌, String, Bool, true, false, Option, none, some, List, [], ◌∷◌, not, str_eq,
  if◌then◌else◌, Result, ok, err,
}
use talos_in_qemu.Manifest.{ℤ, Table, empty, field, Machine, str}
use talos_in_qemu.Netip.{Addr, Parsers}
use talos_in_qemu.Tinq.Driver.{Stat, found, not_exist, stat_failed}
use talos_in_qemu.Tinq.ClusterNet
use talos_in_qemu.Tinq.ClusterNet.{ClusterNetwork, Reserved, spec_cluster_network}
use talos_in_qemu.Tinq.ClusterNet.Multicast.{Sha256, user_nic_device, cluster_nic_args}
use talos_in_qemu.Tinq.Site.{SiteRefusal, Listing, check_site, user_netdev}
use talos_in_qemu.Platform.Detect.{Platform}
use talos_in_qemu.Tinq.Create.{
  Arg, Launch, Numbers, spec_cpu, spec_data_disk, spec_extra_disks, spec_tpm, spec_secure_boot,
  qemu_args,
}

pub data CreateFailure : Type 0 where
  site_refused : SiteRefusal → CreateFailure
  network_refused : ClusterNet.Refusal → CreateFailure
  image_required no_secure_firmware : CreateFailure
  failed : String → CreateFailure

-- The host as create uses it. `stat` is os.Stat, `qemu_img` qemu-img create, `launch` QEMU;
-- `is_abs` and `join` are those of path/filepath.
pub record Maker (W : Type 0) : Type 0 where
  pub net : Parsers
  pub reserved : Reserved
  pub sha : Sha256
  pub numbers : Numbers
  pub lower : String → String
  pub clean : String → String
  pub hostfwd : String → String → ℕ → ℕ → String
  pub socket_netdev : Addr × ℕ → String
  pub is_abs : String → Bool
  pub join : String → String → String
  pub image_root : String
  pub to_mb : String → ℤ
  pub detect : W → Result String Platform
  pub list_site : Machine → W → Listing
  pub stat : String → W → Stat
  pub mkdir_all : String → W → W × Option String
  pub write_record : String → Machine → W → W × Option String
  pub qemu_img : String → String → W → W × Option String
  pub ensure_swtpm : String → W → W × Result String String
  pub ensure_vars : String → String → W → W × Option String
  pub launch : String → List Arg → W → W × Option String
  pub read_pid_file : String → W → Result String ℤ

abbrev pub Run {ℓ} : Type ℓ → Type 0 → Type ℓ
Run W A = W × Result CreateFailure A

abbrev pub then_run {ℓ} : {W : Type ℓ} {A B : Type 0} → Run W A → (A → W → Run W B) → Run W B
then_run (w, err e) k = (w, err e)
then_run (w, ok a) k = k a w

abbrev pub called {ℓ} : {W : Type ℓ} → W × Option String → Run W (Unit {0})
called (w, none) = (w, ok tt)
called (w, some e) = (w, err (failed e))

-- The map at spec, where there is one.
abbrev pub or_empty : Option Table → Table
or_empty none = empty
or_empty (some spec) = spec

abbrev pub spec_of : Machine → Table
spec_of m = or_empty (m.nested_map ("spec" ∷ []))

-- strings.TrimSuffix(size, "i")
abbrev pub trim_i : String → String
trim_i size =
    if str_eq (slice size (len size - 1) (len size)) "i" then slice size 0 (len size - 1) else size

module _ {W : Type 0} (maker : Maker W) where
  -- ensureQcow2
  abbrev pub ensure_at : Stat → String → String → W → Run W (Unit {0})
  ensure_at found path size w = (w, ok tt)
  ensure_at (stat_failed e) path size w = (w, err (failed e))
  ensure_at not_exist path size w = called (maker.qemu_img path (trim_i size) w)

  unfoldable pub ensure_qcow2 : String → String → W → Run W (Unit {0})
  ensure_qcow2 path size w = ensure_at (maker.stat path w) path size w

  abbrev pub image_path : String → String
  image_path image = if not (maker.is_abs image) then maker.join maker.image_root image else image

  abbrev pub image_stat : Stat → String → Result CreateFailure String
  image_stat found path = ok path
  image_stat not_exist path = err (failed path)
  image_stat (stat_failed e) path = err (failed e)

  -- resolveImage
  unfoldable pub resolve_image : Table → W → Result CreateFailure String
  resolve_image spec w =
      let image = str (field "image" spec) "" in
      if str_eq image ""
      then err image_required
      else image_stat (maker.stat (image_path image) w) (image_path image)

  -- The data disk, where the spec has one: its path, or "".
  abbrev pub ensure_data : String → Table → W → Run W String
  ensure_data dir spec w =
      let size = spec_data_disk spec in
      let path = maker.join dir "data.qcow2" in
      if not (str_eq size "")
      then then_run (ensure_qcow2 path size w) (λ _ v. (v, ok path))
      else (w, ok "")

  -- The loop over the extra disks, from index `i`.
  unfoldable pub ensure_extras :
      (String → ℕ → String) → String → ℕ → List String → W → Run W (List String)
  unfolding ensure_qcow2
  ensure_extras extra_path dir i [] w = (w, ok [])
  ensure_extras extra_path dir i (size ∷ rest) w =
      then_run (ensure_qcow2 (extra_path dir i) size w) (λ _ v.
        then_run (ensure_extras extra_path dir (suc i) rest v)
          (λ paths u. (u, ok (extra_path dir i ∷ paths))))

  abbrev pub socket_run : W × Result String String → Run W String
  socket_run (w, ok sock) = (w, ok sock)
  socket_run (w, err e) = (w, err (failed e))

  abbrev pub ensure_tpm : Table → String → W → Run W String
  ensure_tpm spec dir w =
      if spec_tpm spec then socket_run (maker.ensure_swtpm dir w) else (w, ok "")

  -- The firmware pair: its code and its variables.
  abbrev pub secure_pair : Platform → Bool → Result CreateFailure (String × String)
  secure_pair p false = ok (p.secure_firmware_code, p.secure_firmware_vars)
  secure_pair p true = err no_secure_firmware

  abbrev pub firmware : Platform → Table → Result CreateFailure (String × String)
  firmware p spec =
      if spec_secure_boot spec
      then secure_pair p p.secure_firmware_missing
      else ok (p.firmware_code, p.firmware_vars)

  abbrev pub detected : Result String Platform → Result CreateFailure Platform
  detected (ok p) = ok p
  detected (err e) = err (failed e)

  abbrev pub admitted : Result SiteRefusal (Unit {0}) → Result CreateFailure (Unit {0})
  admitted (ok _) = ok tt
  admitted (err e) = err (site_refused e)

  abbrev pub network :
      Result ClusterNet.Refusal (Option ClusterNetwork)
      → Result CreateFailure (Option ClusterNetwork)
  network (ok cn) = ok cn
  network (err e) = err (network_refused e)

  abbrev pub pid_of : Result String ℤ → Result CreateFailure ℤ
  pid_of (ok pid) = ok pid
  pid_of (err e) = err (failed e)

  -- `fmt.Sprintf("extra-%d.qcow2", i)` in the directory.
  module _ (extra_path : String → ℕ → String) where
    abbrev pub launch_of :
        Machine
        → String
        → Platform
        → String
        → String
        → List String
        → String
        → String
        → Option ClusterNetwork
        → Launch
    launch_of m dir p image data_path extra_paths sock code cn =
        let spec = spec_of m in
        record {
          host = p;
          name = m.name;
          cpu = spec_cpu spec;
          mem = maker.to_mb (str (field "memory" spec) "2Gi");
          secure_boot = spec_secure_boot spec;
          fw_code = code;
          vars_path = maker.join dir "efivars.fd";
          disk_path = maker.join dir "system.qcow2";
          image = image;
          data_path = data_path;
          extra_paths = extra_paths;
          tpm_socket = sock;
          netdev = user_netdev maker.lower maker.hostfwd m;
          nic = user_nic_device maker.sha m cn;
          cluster_nic = cluster_nic_args maker.sha maker.socket_netdev m cn;
          serial_log = maker.join dir "serial.log";
          pidfile = maker.join dir "qemu.pid";
        }

    -- QEMU is run, and its pidfile read.
    abbrev pub run_qemu : String → Launch → W → Run W ℤ
    run_qemu dir l w =
        then_run (called (maker.launch l.host.qemu_binary (qemu_args maker.numbers l) w))
          (λ _ v. (v, pid_of (maker.read_pid_file (maker.join dir "qemu.pid") v)))

    -- The part of create once the disks are there.
    abbrev pub start : Machine → String → Platform → String → String → List String → W → Run W ℤ
    start m dir p image data_path extra_paths w =
        let spec = spec_of m in
        then_run (ensure_tpm spec dir w) (λ sock w₁.
          then_run (w₁, firmware p spec)
            (λ (code, vars) w₂.
              then_run (called (maker.ensure_vars (maker.join dir "efivars.fd") vars w₂)) (λ _ w₃.
                then_run (w₃, network (spec_cluster_network maker.net maker.reserved m))
                  (λ cn w₄.
                    run_qemu dir (launch_of m dir p image data_path extra_paths sock code cn) w₄))))

    -- The part of create once the machine is admitted.
    abbrev pub make : Machine → String → Platform → W → Run W ℤ
    make m dir p w =
        let spec = spec_of m in
        then_run (called (maker.mkdir_all dir w)) (λ _ w₁.
          then_run (called (maker.write_record dir m w₁)) (λ _ w₂.
            then_run (w₂, resolve_image spec w₂)
              (λ image w₃.
                then_run
                  (ensure_qcow2 (maker.join dir "system.qcow2") (str (field "disk" spec) "16Gi") w₃)
                  (λ _ w₄. then_run (ensure_data dir spec w₄) (λ data_path w₅.
                    then_run (ensure_extras extra_path dir 0 (spec_extra_disks spec) w₅)
                      (λ extra_paths w₆. start m dir p image data_path extra_paths w₆))))))

    -- create
    unfoldable pub create : Machine → String → W → Run W ℤ
    unfolding ensure_qcow2 ensure_extras resolve_image qemu_args spec_cpu spec_extra_disks
        user_netdev
    create m dir w =
        then_run (w, detected (maker.detect w))
          (λ p w₁.
            then_run
              (
                w₁,
                admitted (
                    check_site maker.lower maker.clean maker.net maker.reserved
                      (maker.list_site m w₁) dir m),
              )
              (λ _ w₂. make m dir p w₂))
