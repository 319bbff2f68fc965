-- ===== src/Cluster/Up.antt =====
-- cluster/up.go: Up, configure, joined, awaitingQuorum, writeArtifacts and hasUserVolume.
-- A run is a function on its history. Texts of the transcript are left out, its steps are kept.
pub mod Effects
mod Rules
pub mod Preflight
pub mod History
pub mod Order
pub mod Steps
pub mod Returns
pub mod Tests
use talos_in_qemu.Prelude.{
  String, Bool, true, false, Option, none, some, List, [], ◌∷◌, not, ◌||◌, ◌&&◌, str_eq, Result, ok,
  err, if◌then◌else◌,
}
use Prim.Native.String
use talos_in_qemu.Netip.{Parsers}
use talos_in_qemu.Cluster.Version.{Contracts, check_version}
use talos_in_qemu.Cluster.Identity.{Urls, ClusterNetwork, control_plane_endpoint, host_sans}
use Preflight.{preflight, version_verdict}
use Effects.{
  UpOptions, JoinOptions, ConfigInput, Generated, Hooks, BootstrapError, already_exists, other,
  Label, Event, Failure, M, pure, throw, ◌>>=◌, ◌>>◌, emit, checked, returned, given, resuming,
  call_failed,
}

abbrev pub has_user_volume : UpOptions → Bool
has_user_volume o = not (str_eq o.data_disk_serial "") || not (str_eq o.ephemeral_max_size "")

abbrev announce : Label → M (Unit {0})
announce l = emit (Event.step l)

abbrev pub join_endpoint : Option JoinOptions → String
join_endpoint none = ""
join_endpoint (some j) = j.cluster_endpoint

abbrev pub join_secrets : Option JoinOptions → Option String
join_secrets none = none
join_secrets (some j) = some j.secrets_bundle

abbrev pub with_endpoint :
    Option ClusterNetwork → String → List (String × String) → List (String × String)
with_endpoint none endpoint l = l
with_endpoint (some _) endpoint l = ("cluster-endpoint", String.◌++◌ endpoint "\n") ∷ l

module _ (hooks : Hooks) where
  -- The loop of writeArtifacts.
  pub write_each : List (String × String) → M (Unit {0})
  write_each [] = pure tt
  write_each ((name, content) ∷ rest) = do
    emit (Event.wrote name content)
    checked (hooks.write name content)
    write_each rest

  abbrev write_artifacts : List (String × String) → M (Unit {0})
  write_artifacts l = write_each (hooks.order l)

module _ (net : Parsers) (urls : Urls) (hooks : Hooks) where
  module _ (opts : UpOptions) where
    abbrev pub config_input : String → ConfigInput
    config_input installed_addr = record {
      cluster_name = opts.cluster_name;
      endpoint =
          control_plane_endpoint urls opts.kube_endpoint opts.cluster_network
            (join_endpoint opts.join);
      api_address = installed_addr;
      talos_version = opts.talos_version;
      kubernetes_version = opts.kubernetes_version;
      console_arg = opts.console_arg;
      system_disk = opts.system_disk;
      data_disk_serial = opts.data_disk_serial;
      ephemeral_max_size = opts.ephemeral_max_size;
      installer_image = opts.installer_image;
      disable_kexec = opts.disable_kexec;
      network = opts.network;
      cluster_network = opts.cluster_network;
      hostname = opts.hostname;
      extra_subject_alt_names = host_sans urls opts.kube_endpoint opts.cluster_network;
      registries = opts.registries;
      config_patches = opts.config_patches;
      secrets_bundle = join_secrets opts.join;
    }

    abbrev pub artifacts : String → Generated → List (String × String)
    artifacts endpoint g = with_endpoint opts.cluster_network endpoint (
        ("controlplane.yaml", g.control_plane)
        ∷ ("talosconfig", g.talosconfig)
        ∷ ("secrets.yaml", g.secrets)
        ∷ [])

    -- configure: steps 6 and 7.
    configure : String → String → M String
    configure installed_addr installed = do
      let input = config_input installed_addr
      emit (Event.generated input)
      g ← returned (hooks.generate_config input)
      write_artifacts hooks (artifacts input.endpoint g)
      announce Label.config
      emit (Event.applied opts.talos_endpoint g.control_plane)
      checked (hooks.apply_config opts.talos_endpoint g.control_plane)
      emit (Event.waited_stage g.talosconfig installed)
      checked (hooks.wait_bootstrap_ready g.talosconfig installed)
      announce Label.apply_config
      pure g.talosconfig

    -- Steps 5 to 7 of Up: configure, or skip what a previous run did.
    pub configured_or_not : String → String → Option String → M String
    configured_or_not installed_addr installed (some talosconfig) = do
      announce Label.maintenance
      announce Label.config
      emit (Event.waited_stage talosconfig installed)
      checked (hooks.wait_bootstrap_ready talosconfig installed)
      announce Label.apply_config
      pure talosconfig
    configured_or_not installed_addr installed none = do
      emit (Event.waited_maintenance opts.talos_endpoint)
      checked (hooks.wait_maintenance opts.talos_endpoint)
      announce Label.maintenance
      configure installed_addr installed

    abbrev node_addr : String → Option ClusterNetwork → String
    node_addr installed_addr none = installed_addr
    node_addr installed_addr (some cn) = urls.addr_text cn.address.addr

    -- joined: steps 9 and 10 of a join.
    pub joined : String → JoinOptions → M (Unit {0})
    joined installed_addr j = do
      write_artifacts hooks (("kubeconfig", j.kubeconfig) ∷ [])
      let addr = node_addr installed_addr opts.cluster_network
      emit (Event.waited_ready_at j.kubeconfig addr)
      checked (hooks.wait_node_ready_at j.kubeconfig addr)
      announce Label.kubeconfig
      announce Label.storage

    host_kubeconfig : Option ClusterNetwork → String → M String
    host_kubeconfig none kubeconfig = pure kubeconfig
    host_kubeconfig (some _) kubeconfig =
        returned (hooks.kubeconfig_with_server kubeconfig opts.kube_endpoint)

    storage_step : Bool → String → M (Unit {0})
    storage_step false kubeconfig = announce Label.storage
    storage_step true kubeconfig = do
      emit (Event.installed_storage kubeconfig)
      checked (hooks.install_storage kubeconfig)
      announce Label.storage

    -- Steps 9 and 10 of a cluster that serves.
    finish : String → String → M (Unit {0})
    finish installed talosconfig = do
      emit (Event.fetched_kubeconfig talosconfig installed)
      minted ← returned (hooks.kubeconfig talosconfig installed)
      kubeconfig ← host_kubeconfig opts.cluster_network minted
      write_artifacts hooks (("kubeconfig", kubeconfig) ∷ [])
      emit (Event.waited_ready kubeconfig)
      checked (hooks.wait_node_ready kubeconfig)
      announce Label.kubeconfig
      storage_step (has_user_volume opts) kubeconfig

    -- awaitingQuorum where members are stopped that the node's etcd needs, or else steps 9 and 10.
    finish_or_wait : Bool → String → String → M (Unit {0})
    finish_or_wait true installed talosconfig = do announce Label.kubeconfig; announce Label.storage
    finish_or_wait false installed talosconfig = finish installed talosconfig

    abbrev is_empty : List String → Bool
    is_empty [] = true
    is_empty (_ ∷ _) = false

    -- Whether the node was a member already: its refusal is a success.
    abbrev rejoined : Option BootstrapError → Result Failure Bool
    rejoined none = ok false
    rejoined (some already_exists) = ok true
    rejoined (some (other e)) = err (call_failed e)

    -- Steps 8 to 10 where no cluster is joined.
    pub serve : String → String → M (Unit {0})
    serve installed talosconfig = do
      emit (Event.bootstrapped talosconfig installed)
      again ← given (rejoined (hooks.bootstrap talosconfig installed))
      announce Label.bootstrap
      finish_or_wait (again && not (is_empty opts.stopped_members)) installed talosconfig

    -- Everything after step 4. Only the errors of a join's last steps are not wrapped.
    after_bootstrap : String → String → String → Option JoinOptions → M (Unit {0})
    after_bootstrap installed_addr installed talosconfig (some j) = do
      announce Label.bootstrap
      joined installed_addr j
    after_bootstrap installed_addr installed talosconfig none =
        resuming (serve installed talosconfig)

    -- Up
    pub up : {Contract : Type 0} → Contracts Contract → String → M (Unit {0})
    up contracts generator = do
      (addr, installed) ← given (preflight net urls opts)
      announce Label.platform
      announce Label.version
      announce Label.version_guard
      given (version_verdict (check_version contracts opts.talos_version generator))
      emit Event.booted
      pid ← returned hooks.boot
      announce Label.boot
      found ← resuming (returned hooks.read_talosconfig)
      talosconfig ← resuming (configured_or_not addr installed found)
      after_bootstrap addr installed talosconfig opts.join
