-- ===== src/Lib.antt =====
-- tinq runs Talos Linux machines as QEMU guests, or adopts them as hardware, from one manifest per
-- machine. A controller reconciles the manifest with the host, and a bring-up takes a machine from
-- its first boot to a node of a cluster.
--
-- The parts:
-- - Driverkit (driverkit/driverkit.go): the loop that reconciles one resource. The world is a
--   parameter; a driver's four verbs and the API server act on it, and a tick returns the new world,
--   the calls it made in order, and its error. Driverkit.Status builds the published status as a map
--   before its JSON encoding.
-- - Netip: the addresses and prefixes of net/netip as far as the code uses them. What a text parses
--   to is a parameter (`Parsers`), with the bound that a parsed IPv4 address has 32 bits.
-- - Cluster.Network (cluster/network.go): the checks of a static address block.
-- - Cluster.Version (cluster/version.go): the guard against an image newer than the generator.
-- - Cluster.Disks (cluster/nodeinfo.go): choosing a disk or a link by what the node reports.
-- - Cluster.Identity (cluster/nodeidentity.go and the endpoint helpers of cluster/up.go).
-- - Cluster.Retry (cluster/client.go: waitFor; cluster/up.go: bootstrapWithRetry). The loop runs on
--   timeout / 1000 + 1 rounds of fuel, enough since the n-th tick of its ticker is never early.
-- - Cluster.Up (cluster/up.go): the bring-up. Its hooks are a record of functions, and a run is a
--   function from a history of events to a longer history and a result, so that theorems can speak of
--   order and of what never happens. Cluster.Up.Effects holds the options and the events,
--   Cluster.Up.Rules the rules for reasoning about a run, Cluster.Up.History what each event requires
--   and which events are allowed. Cluster.Up.Order, Cluster.Up.Steps and Cluster.Up.Returns hold the
--   proofs.
-- - Platform.Process (platform/process.go): whether a pid is the process of a machine.
-- - Platform.Image (platform/image.go): reading the architecture of an ISO image. Bytes are numbers,
--   and an access out of range, Go's panic, is `none`. The walk over a directory runs on the length of
--   its buffer as fuel, enough since a record has 33 bytes at least.
-- - Platform.Firmware (platform/firmware.go): the firmware that QEMU's descriptors name, and the tables
--   of paths behind them. Firmware.Installed reads the loops over the directories as a map.
-- - Platform.Detect (platform/platform.go, platform/accel.go): what is asked of a host before QEMU.
-- - Tinq.Halt, Tinq.Destroy (cmd/tinq/main.go: halt, waitGone, readPid, destroy): the signals to a
--   machine's process and the removal of its state. Times are milliseconds. The polling loop runs on
--   fuel: budget / 100 + 2 polls, enough since the n-th tick of a ticker of 100 ms is never early.
-- - Tinq.Segment (cmd/tinq/segment.go): the ARP probe of a cluster network and its reply.
-- - Tinq.Endpoints (cmd/tinq/main.go, cmd/tinq/adopt.go): where a machine answers.
-- - Tinq.Driver (cmd/tinq/main.go, cmd/tinq/adopt.go): Observe, Create, Stop and Destroy, the driver
--   that the reconcile loop of Driverkit is given. The function that launches QEMU is a parameter.
-- - Tinq.ClusterNet (cmd/tinq/clusternet.go): a machine's cluster network. ClusterNet.Parts and
--   ClusterNet.Accepted say which blocks are accepted; ClusterNet.Multicast holds the multicast
--   endpoint, the MACs and the NICs. Talos's pod and service networks (`Reserved`) and SHA-256
--   (`Sha256`, whose bytes are below 256) are parameters.
-- - Tinq.Site (cmd/tinq/clusternet.go and the start of create in cmd/tinq/main.go): the machines that
--   are recorded on a site, the sockets that they bind on the host, and checkSite. Site.History is the
--   site over time, as a step relation: a machine is created, a run is cut off, a directory is swept.
-- - Tinq.Lifecycle (cmd/tinq/lifecycle.go, standalone of cmd/tinq/main.go): who joined whom, leaving
--   etcd, and the destroy verb. The calls of etcd and Kubernetes and the listing of a site are fields
--   of a `Fleet`. The search for joiners runs on fuel, one round for each name that a record can have
--   and one more, enough since it queues no name twice.
-- - Tinq.Join (cmd/tinq/join.go): whether a machine may join the cluster that it names, and what it is
--   given of its owner. Join.RoundTrip reads what a bring-up of Cluster.Up wrote.
-- - Tinq.Capacity (cmd/tinq/capacity.go): the memory that the machines of a site may declare, with the
--   wrap-around of Go's int.
-- - Tinq.Create (cmd/tinq/main.go: create, resolveImage, ensureQcow2 and the readers of the spec): the
--   run that makes a machine's state and launches QEMU, with QEMU's argument list. Create.Boot reads
--   the boot order off that list. The host's answers and QEMU itself are fields of a `Maker`.
-- - Tinq.Options (cmd/tinq/main.go: upOptions, registryMirrors, configPatches): what the bring-up of a
--   guest is given.
-- - Tinq.Adopt (cmd/tinq/adopt.go): adopting hardware, up to its bring-up and with it. A run leaves the
--   calls that it made; Adopt.Preflight says what they answered.
-- - Cluster.Config (cluster/config.go, cluster/nodeidentity.go: withNodeIdentity): the machine config
--   of a bring-up. Config.Generate is GenerateConfig on a `Machinery`, what Talos's generator and yaml
--   answer; Config.Kubernetes, Registries, Volumes, Node, Options and Patch are its parts, and
--   Config.Documents the documents that they make or change. Options.Given, Patch.Sections and
--   Node.Declared say what the generator is given and what the patched document and the node's own
--   documents hold, each apart from the functions that make them.
-- - Cluster.Membership (cluster/membership.go): leaving etcd, and the removal of a member and of a node
--   by its address.
-- - Cluster.Reconfigure (cluster/reconfigure.go) and Tinq.Reconfigure (cmd/tinq/reconfigure.go): a
--   config that is generated anew and applied to a running node. Reconfigure.Safe holds what is
--   applied and when, Tinq.Reconfigure.Same and Guest compare its inputs with those of the bring-up.
-- - Manifest: how values are read from a manifest (cmd/tinq/main.go).
--
-- Errors are named after the sentence that the code returns; their texts are not modelled. A call to
-- the network, the disk or the clock is a parameter, and so is what Go's library or Talos's does with
-- a text. Only the loops of Cluster.Retry, Tinq.Halt, Tinq.Lifecycle and
-- Platform.Image need fuel.
--
-- Not modelled: Talos's config generator itself, gRPC and TLS clients, the printing of the transcript,
-- and the contents of the files that the host keeps.
pub mod Prelude
pub mod Manifest
pub mod Driverkit
pub mod Netip
pub mod Cluster
pub mod Platform
pub mod Tinq
