-- ===== src/Cluster/Reconfigure/Tests.antt =====
-- A node whose config gains a line that touches no partition.
use talos_in_qemu.Prelude.{
  ◌≡◌, ◌⊎◌, refl, String, false, Option, none, some, [], ◌∷◌, Result, ok, err, str_eq,
  if◌then◌else◌,
}
use talos_in_qemu.Cluster.Up.Tests.{plain}
use talos_in_qemu.Cluster.Reconfigure.{
  ReconfigureOptions, Failure, failed, applied, wrote, Yaml, Running, regenerated, reconfigure,
  reconfigure_refusals,
}
use talos_in_qemu.Cluster.Reconfigure.Safe.{IsApplicable, reconfigure_lem}

abbrev pub one_document : Yaml
one_document = record {
  split = λ b sep. b ∷ [];
  contains = λ s t. false;
  trim_space = λ s. s;
  first_group = λ re s. none;
}

abbrev pub serving : Running
serving = record {
  read_talosconfig = ok (some "t");
  read_secrets = ok "s";
  read_endpoint = ok "https://10.254.0.1:6443";
  read_control_plane = ok "old";
  installed_version = λ t e. ok "v1.14.1";
  generate_config = λ i. ok (record { control_plane = "new"; talosconfig = "t2"; secrets = "s" });
  apply_config = λ t e c. none;
  write = λ name content. none;
}

abbrev options : ReconfigureOptions
options = record {
  cluster_name = "a";
  talos_endpoint = "10.0.0.2:50000";
  kube_endpoint = "https://10.0.0.2:6443";
  api_address = "10.0.0.2";
  system_disk = record { serial = "S1"; wwid = ""; dev_path = "" };
  data_disk_serial = "";
  ephemeral_max_size = "";
  console_arg = "";
  disable_kexec = false;
  network = none;
  cluster_network = none;
  hostname = "";
  registries = [];
  config_patches = [];
}

changed :
    reconfigure plain serving one_document options []
    ≡ (wrote "controlplane.yaml" "new" ∷ applied "10.0.0.2:50000" "new" ∷ [], ok "new")
unfolding reconfigure
changed = refl

reconfigure_lem_example :
    ((e : Failure) × (regenerated plain serving one_document options ≡ err e)
      × (reconfigure plain serving one_document options [] ≡ ([], err e)))
    ⊎ ((talosconfig : String) × (config : String) × IsApplicable plain serving one_document options
          talosconfig config
        × (((e : String) × (none ≡ some e)
              × (reconfigure plain serving one_document options []
                  ≡ (applied "10.0.0.2:50000" config ∷ [], err (failed e))))
            ⊎ ((◌≡◌ {A = Option String} none none)
                × ((r : Result Failure String) × (reconfigure plain serving one_document options []
                      ≡ (
                        wrote "controlplane.yaml" config ∷ applied "10.0.0.2:50000" config ∷ [],
                        r,
                      ))
                    × (((◌≡◌ {A = Option String} none none) × (r ≡ ok config))
                        ⊎ ((e : String) × (none ≡ some e) × (r ≡ err (failed e))))))))
reconfigure_lem_example = reconfigure_lem plain serving one_document options

-- Two volumes, of which the second has changed.
abbrev two_volumes : Yaml
two_volumes = record one_document {
  split = λ b sep.
      "kind: VolumeConfig\nname: STATE"
      ∷ (if str_eq b "old"
          then "kind: VolumeConfig\nname: EPHEMERAL\nmaxSize: 100GB"
          else "kind: VolumeConfig\nname: EPHEMERAL\nmaxSize: 120GB")
      ∷ [];
}

second_volume_passes : reconfigure_refusals two_volumes "old" "new" ≡ ok tt
unfolding reconfigure_refusals
second_volume_passes = refl
