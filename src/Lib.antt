-- ===== src/Lib.antt =====
-- Pontifex connects pods of a Kubernetes cluster to external peers: a NetworkOverlay resource names a
-- virtual range, its peers and its edges, an operator fills in the resource's status, and agents on
-- the nodes make the host follow the status.
--
-- The operator (apps/operator) gives each overlay a BGP community, finds its gateways and the pods of
-- its edges, and deploys agents. An agent (apps/agent) gets snapshots of all overlays and runs
-- reconcilers, each of which compares what the snapshot asks for with what a library reports of the
-- host, removes the difference and installs what is missing: the BGP daemon's neighbors, policies and
-- advertised prefixes; VRFs, ip rules, addresses, routes and firewall bridges; WireGuard interfaces.
-- The routes reconcilers also learn routes from BGP events, which RoutesUpdater feeds to them. The
-- operator and the agents meet in the resource's status alone: the community that the operator
-- allocates is what the agents turn into a routing table number.
--
-- Files, and the code that they model:
-- - Api: api/v1alpha1/networkoverlay_types.go, the resource.
-- - Operator.Controller: `Reconcile` and `handleDeletion` of
--   apps/operator/internal/controller/networkoverlay_controller.go. Operator.Community:
--   `allocateCommunity` of it, Operator.Edges: `resolveEdges`, Operator.Gateways: `buildGateways`.
--   Operator.Cluster: the objects of the cluster and the client library's calls that they use.
-- - Operator.Workloads: apps/operator/internal/agent, internal.go and (Workloads.Gateways) gateway.go.
-- - Agent.Bgp: apps/agent/internal/libs/bgp/interface.go; Contract is what a client relies on.
--   Bgp.Internal and Bgp.Gateway: internalnode.go and gateway.go of
--   apps/agent/internal/reconcilers/bgp. `reconcile` is `Reconcile`, `build_desired_neighbors` is
--   `buildDesiredNeighbors`, and so on; a `want_` function is the body of a loop that fills a map.
-- - Agent.Routes and Agent.Firewall: the interfaces in apps/agent/internal/libs/routes and
--   libs/firewall. Routes.Tables: `vrfName` and `vrfTableID`. Routes.Learned: `ApplyEvent`.
--   Routes.Wanted: the maps that apps/agent/internal/reconcilers/routes/internalnode.go fills.
--   Routes.Internal: its `Reconcile` and the five steps of it. Routes.Gateway: gateway.go beside it.
-- - Agent.RoutesUpdater: apps/agent/internal/bgp/routes_updater.go; the rounds of its `select` loop
--   are a list of inputs.
-- - Agent.Cluster: apps/agent/internal/cluster, the mediator with its subscribers' channels.
-- - Agent.Manager: `Run` of the two managers in apps/agent/internal/controllers. The goroutines and
--   the channels between them are a `System`, a turn of one of them or an event from outside is a
--   `Step`, and `Runs` are the sequences of steps. Manager.Wiring: what each `Run` puts together.
-- - Agent.Backends: the stubs behind the interfaces, in apps/agent/internal/libs.
-- - Agent.Main and Operator.Main: apps/agent/cmd/agent/main.go and apps/operator/cmd/operator/main.go,
--   with `SetupWithManager` and the stubs in apps/operator/internal/wgkeys and internal/agent/rbac.go.
--   Logging: `newLogger` of both.
-- - Agent.Wireguard: apps/agent/internal/reconcilers/wireguard/reconciler.go and libs/wg.
-- - Config: apps/operator/internal/config and apps/agent/internal/config.
-- - GoMap: Go's maps, GoSort: `sort.Slice`, GoChan: buffered channels, GoNet: `net.SplitHostPort` and
--   `net.ParseIP`, Strconv: numbers in text.
-- - Effects: `error` values, calls on a host and the loops that collect errors. Sweeps, Keyed,
--   Settles and Converge: what such loops do to a host, for every reconciler. Keeps: statements that
--   leave a part of the host alone. Succeeds: statements whose calls all return nil.
-- - Base: names and tests that all share. Examples: hosts in memory that honour the contracts, small
--   snapshots, and each theorem at them.
--
-- State and calls. A host is a type `W` of states. A method `func(…) error` of a library's interface
-- is a `Call`, a function of the state that returns an error or none and the next state; one with a
-- result is a `Query`. The interfaces are records of calls, so the reconcilers are functions of every
-- library that fills them, failing ones included. `Reconcile` is a function from the snapshot and
-- the state to the errors that it joins (none of them is nil) and the next state. An early return is
-- the failure of a do block, which drops the collected errors, as the code does. Logging is left out.
--
-- Maps. A Go map is the list of its entries, and `range` over it may take any order: each loop over a
-- map asks a `Runtime` for a permutation of the entries, with a number that tells the loops apart;
-- it is an argument of every definition with such a loop.
--
-- Contracts. The libraries are behind interfaces whose implementations are stubs here, so what a
-- reconciler relies on is stated as a record `Honours` over a view of the host: an item per key, a
-- call that returns nil has made or removed the item of its key, no call touches another item or
-- another kind, whatever it returns, and a listing reports the items that are there. Examples has
-- hosts in memory for each contract.
--
-- Numbers. A uint32 is a natural number, and the one sum of the code that may wrap, the table number,
-- wraps modulo 2^32. `decimal` prints a number with one round of fuel for each unit of it, more than
-- it has digits. The pool of communities is scanned for 65535 rounds, as in the code.
--
-- The operator's client library is a record of such calls too. `CreateOrUpdate` is one of them, with
-- the function that it applies to a Deployment; a patch returns the overlay that the server answers.
-- Reconciliations of several overlays come one after the other, as with the controller library's
-- default of one worker and one operator; `Communities` of Operator.Controller.Unique is what a
-- statement on all overlays relies on, and its listings see every write before them.
--
-- Goroutines. A round of a loop is one step, with all the calls of its reconciliation: the BGP loop
-- and the updater share no state and use different libraries. Who sends on the channels is open: the
-- code that would is not written, so a send, within the channel's capacity, and a close may happen at
-- any time.
--
-- Not modelled: the generated deep copies and the registration of the types (values do not change in
-- the model, so a copy is the value), `newScheme`, and logging.
pub mod Base
pub mod GoChan
pub mod GoMap
pub mod GoNet
pub mod GoSort
pub mod Strconv
pub mod Effects
pub mod Api
pub mod Logging
pub mod Config
pub mod Operator
pub mod Agent
pub mod Examples
