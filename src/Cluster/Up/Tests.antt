-- ===== src/Cluster/Up/Tests.antt =====
-- A bring-up whose hooks all succeed, alone and as a join.
use talos_in_qemu.Prelude.{◌≡◌, refl, inl, String, Option, none, some, false, [], All, ok, List}
use talos_in_qemu.Netip.{Addr}
use talos_in_qemu.Netip.Samples.{no_parsers}
use talos_in_qemu.Cluster.Version.{Contracts, check_version}
use talos_in_qemu.Cluster.Network.{check_network}
use talos_in_qemu.Cluster.Identity.{Urls, api_address, installed_endpoint}
use talos_in_qemu.Cluster.Up.Effects.{UpOptions, JoinOptions, Hooks}
use talos_in_qemu.Cluster.Up.History.{IsOrderly, Allowed, ListsEntries}
use talos_in_qemu.Cluster.Up.Preflight.{preflight, version_verdict}
use talos_in_qemu.Cluster.Up.Steps.{IsInitial, steps, ten, up_steps_lem}
use talos_in_qemu.Cluster.Up.Returns.{IsFine, up_returns}
use talos_in_qemu.Cluster.Up.{up}
use talos_in_qemu.Cluster.Up.Order.{up-IsOrderly, up-Allowed}

abbrev pub addr_text : Addr → String
addr_text a = "10.0.0.2"

abbrev pub plain : Urls
plain = record {
  split_host_port = λ s. some (s, "50000");
  join_host_port = λ h p. h;
  hostname = λ s. some s;
  addr_text = addr_text;
  https = λ s. s;
}

abbrev pub same_order : List (String × String) → List (String × String)
same_order l = l

abbrev pub fresh : Hooks
fresh = record {
  boot = ok 7;
  read_talosconfig = ok none;
  write = λ name content. none;
  order = same_order;
  generate_config = λ input. ok (record { control_plane = "c"; talosconfig = "t"; secrets = "s" });
  wait_maintenance = λ e. none;
  apply_config = λ e c. none;
  wait_bootstrap_ready = λ t e. none;
  wait_node_ready_at = λ k a. none;
  bootstrap = λ t e. none;
  kubeconfig = λ t e. ok "k";
  wait_node_ready = λ k. none;
  install_storage = λ k. none;
  kubeconfig_with_server = λ k s. ok k;
}

fresh-ListsEntries : ListsEntries fresh
fresh-ListsEntries l a = (λ m. m, λ m. m)

abbrev pub options : Option JoinOptions → UpOptions
options join = record {
  cluster_name = "demo";
  talos_endpoint = "127.0.0.1:50000";
  kube_endpoint = "https://127.0.0.1:6443";
  system_disk = record { serial = "A"; wwid = ""; dev_path = "" };
  data_disk_serial = "B";
  ephemeral_max_size = "";
  installer_image = "";
  talos_version = "v1.10";
  console_arg = "ttyS0";
  disable_kexec = false;
  network = none;
  cluster_network = none;
  hostname = "node";
  registries = [];
  config_patches = [];
  kubernetes_version = "1.33";
  join = join;
  stopped_members = [];
}

abbrev pub versions : Contracts String
versions = record { parse = λ s. some s; greater = λ a b. false }

abbrev joining : Option JoinOptions
joining =
    some (record {
      secrets_bundle = "S";
      cluster_endpoint = "https://10.0.0.1:6443";
      kubeconfig = "K";
    })

up-IsOrderly_example : IsOrderly (up no_parsers plain fresh (options none) versions "v1.10" []).0
up-IsOrderly_example =
    up-IsOrderly no_parsers plain fresh fresh-ListsEntries (options none) versions "v1.10"

up-Allowed_example :
    All
      (Allowed fresh (options joining))
      (up no_parsers plain fresh (options joining) versions "v1.10" []).0
up-Allowed_example =
    up-Allowed no_parsers plain fresh fresh-ListsEntries (options joining) versions "v1.10"

up_steps_lem_example :
    IsInitial (up no_parsers plain fresh (options none) versions "v1.10" []).0
    × ((up no_parsers plain fresh (options none) versions "v1.10" []).1 ≡ ok tt
        → steps (up no_parsers plain fresh (options none) versions "v1.10" []).0 ≡ ten)
up_steps_lem_example = up_steps_lem no_parsers plain fresh (options none) versions "v1.10"

fresh-IsFine : IsFine fresh
fresh-IsFine = record {
  boots = (7, refl);
  reads = (none, refl);
  writes = λ name content. refl;
  generates = λ input. (_, refl);
  maintenance = λ e. refl;
  applies = λ e c. refl;
  stage = λ t e. refl;
  ready_at = λ k a. refl;
  bootstraps = λ t e. inl refl;
  fetches = λ t e. ("k", refl);
  ready = λ k. refl;
  storage = λ k. refl;
  rewrites = λ k s. (k, refl);
}

up_returns_example : (up no_parsers plain fresh (options joining) versions "v1.10" []).1 ≡ ok tt
unfolding preflight check_network installed_endpoint api_address version_verdict check_version
up_returns_example =
    up_returns no_parsers plain fresh fresh-IsFine (options joining) versions "v1.10" (_, refl) refl
