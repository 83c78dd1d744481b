-- ===== src/Examples/Routes.antt =====
-- The routes reconcilers, on a host with a stale rule and a stale address.
use pontifex.Base.{
  arith, ==-self, ◌<◌, ℕ, String, List, [], ◌∷◌, none, some, ◌≡◌, refl, comparable_string,
  comparable_number,
}
use pontifex.GoMap.{get, has, put, index_by, values, entries, keys}
use pontifex.Strconv.{parse_uint32, after_colon, decimal}
use pontifex.Effects.{attempt, attempt_query, sweep}
use pontifex.Effects.Settles.{settled, remove_orphans, install_missing}
use pontifex.Agent.Bgp as Bgp
use pontifex.Agent.Firewall.{Bridge}
use pontifex.GoMap.Ranges.{find}
use pontifex.Agent.Bgp.{RouteEvent, route_added, route_withdrawn}
use pontifex.Agent.Routes.{Rule, Route}
use pontifex.Agent.Routes.Tables.{
  vrf_table_id, allocated_table, community_of-vrf_table_id, vrf_table_id-community_of,
}
use pontifex.Operator.Community.{community_of}
use pontifex.Agent.Routes.Gateway as Gateway
use pontifex.Agent.Routes.Gateway.Content.{gateway_syncs, active_routes}
use pontifex.Agent.Routes.Internal.{
  InternalReconciler, reconcile, reconcile_vrfs, reconcile_rules, reconcile_overlay_addrs,
  reconcile_addrs, sync_tables, reconcile_routes, reconcile_bridges,
}
use pontifex.Agent.Routes.Wanted.{
  table_of, want_vrf, want_vrfs, want_rule, want_rules, want_edge_bridges, want_bridges, want_ips,
  community_map, place_route, routes_by_table, or_empty, learned_route, overlay_rule, overlay_vrf,
  BridgeKey, comparable_bridge_key, edge_bridge,
}
use pontifex.Agent.Routes.Internal.Convergence.{routes_settle}
use pontifex.Agent.Routes.Wanted.Tenancy.{routes_of_tenant}
use pontifex.Agent.Routes.Wanted.Content.{last_wanted}
use pontifex.Agent.Routes.Internal.Failures.{bridge_untouched}
use pontifex.Agent.Routes.Internal.Syncs.{SyncsTables, tables_hold}
use pontifex.Agent.RoutesUpdater.{Input, snapshot, bgp_event, context_done, State, run, started}
use pontifex.Agent.RoutesUpdater.Latest.{IsRound, run-IsRound}
use pontifex.Agent.RoutesUpdater.Learns.{internal_routes}
use pontifex.Examples.Memory.{first_written, discard}
use pontifex.Examples.Host.{
  Host, empty_host, tables, bridges, seen, host-Honours, has_addr, host-KeepsAddrs,
}
use pontifex.Agent.Routes.Internal.Held.{addrs_hold}
use pontifex.Examples.Snapshot as Snapshot
use pontifex.Examples.Communities.{first}

abbrev learned : Bgp.Route
learned = record {
  prefix = "10.1.0.9/32";
  next_hop = "10.0.0.1";
  communities = "65000:9" ∷ "65000:1" ∷ [];
}

abbrev pub node : InternalReconciler
node = record { node_name = "n1"; learned = (learned.prefix, learned) ∷ [] }

abbrev stale : Rule
stale = record { source = ""; to = "10.7.0.0/24"; table_id = 10007; iif = ""; oif = "" }

abbrev before : Host
before = record empty_host {
  rules = stale ∷ [];
  addrs = record { vrf_name = "pntfx-ov1"; ip = "10.1.0.9" } ∷ [];
}

after : Host
after = (reconcile tables bridges node first_written Snapshot.snapshot before).1

clean : reconcile tables bridges node first_written Snapshot.snapshot before ≡ ([], after)
unfolding after reconcile reconcile_vrfs reconcile_rules reconcile_overlay_addrs reconcile_addrs
    sync_tables reconcile_routes reconcile_bridges remove_orphans install_missing sweep attempt
    attempt_query values keys entries index_by get has put discard table_of vrf_table_id after_colon
    parse_uint32 want_vrf want_vrfs want_rule want_rules want_edge_bridges want_bridges want_ips
    community_map place_route routes_by_table
clean = refl

abbrev web : BridgeKey
web = record { overlay_name = "ov1"; virtual_ip = "10.1.0.5" }

routes_settle_example :
    ((n : String)
      → seen.vrfs after n
        ≡ settled (λ v. v) (seen.vrfs before n) (get n (want_vrfs Snapshot.snapshot [])))
    × ((t : ℕ)
        → seen.rules after t
          ≡ settled (λ v. v) (seen.rules before t) (get t (want_rules Snapshot.snapshot [])))
    × ((b : BridgeKey)
        → seen.bridges after b
          ≡ settled
              (λ v. v)
              (seen.bridges before b)
              (get b (want_bridges "n1" Snapshot.snapshot [])))
routes_settle_example =
    routes_settle tables bridges seen host-Honours node first_written Snapshot.snapshot before after
      clean

routes_of_tenant_example :
    or_empty (get 10001 (routes_by_table (community_map Snapshot.snapshot []) (learned ∷ []) []))
    ≡ learned_route 10001 learned ∷ []
unfolding vrf_table_id after_colon parse_uint32
routes_of_tenant_example = routes_of_tenant Snapshot.snapshot 10001 (learned ∷ [])

last_wanted_example :
    (get web (want_bridges "n1" Snapshot.snapshot [])
      ≡ some (edge_bridge Snapshot.overlay Snapshot.edge_on_node))
    × (get 10001 (want_rules Snapshot.snapshot []) ≡ some (overlay_rule Snapshot.overlay 10001))
    × (get "pntfx-ov1" (want_vrfs Snapshot.snapshot []) ≡ some (overlay_vrf Snapshot.overlay 10001))
unfolding table_of vrf_table_id after_colon parse_uint32
last_wanted_example = last_wanted "n1" web 10001 "pntfx-ov1" Snapshot.snapshot

allocated_table_example : (t : ℕ) × (vrf_table_id "65000:2" ≡ some t) × (10000 < t) × (t < 75536)
allocated_table_example = allocated_table 65000 "ov2" Snapshot.snapshot "65000:2" first

community_of-vrf_table_id_example : ◌≡◌ {A = String} (community_of 65000 2) "65000:2"
unfolding decimal
community_of-vrf_table_id_example =
    community_of-vrf_table_id 65000 "ov2" Snapshot.snapshot "65000:2" 10002 first
      (vrf_table_id-community_of 65000 2 (omega arith))

gateway_syncs_example :
    Gateway.reconcile tables
      (record { learned = (learned.prefix, learned) ∷ [] })
      first_written
      Snapshot.snapshot
      empty_host
    ≡ (
      none,
      record empty_host { tables = (0, active_routes Snapshot.snapshot (learned ∷ [])) ∷ [] },
    )
unfolding values entries
gateway_syncs_example =
    gateway_syncs tables (record { learned = (learned.prefix, learned) ∷ [] }) first_written
      Snapshot.snapshot empty_host

abbrev added : RouteEvent
added = record { type = route_added; route = learned }

abbrev withdrawn : RouteEvent
withdrawn = record { type = route_withdrawn; route = learned }

abbrev inputs : List Input
inputs =
    bgp_event added
    ∷ snapshot Snapshot.snapshot
    ∷ bgp_event withdrawn
    ∷ context_done
    ∷ bgp_event added
    ∷ []

abbrev begin : State InternalReconciler Host
begin = started (internal_routes tables bridges first_written) node empty_host

run-IsRound_example :
    IsRound
      (internal_routes tables bridges first_written)
      (bgp_event added ∷ snapshot Snapshot.snapshot ∷ [])
      (bgp_event withdrawn)
      begin
      (run (internal_routes tables bridges first_written) inputs begin)
run-IsRound_example =
    run-IsRound (internal_routes tables bridges first_written) inputs
      (bgp_event added ∷ snapshot Snapshot.snapshot ∷ []) (bgp_event withdrawn) begin refl

abbrev table : Host → ℕ → List Route
table h t = or_empty (get t h.tables)

tables-SyncsTables : SyncsTables tables table
unfolding get
tables-SyncsTables = record {
  synced = λ t rs w h. ground (arith, ==-self t);
  others = λ t rs w k h. ground (arith, h);
}

tables_hold_example : table after 10001 ≡ learned_route 10001 learned ∷ []
unfolding table_of vrf_table_id after_colon parse_uint32 values entries
tables_hold_example =
    tables_hold tables bridges node first_written table tables-SyncsTables seen host-Honours
      (record { ensure = λ o v p w. refl; remove = λ o v w. refl }) Snapshot.snapshot before after
      clean 10001 refl

addrs_hold_example : has_addr after "pntfx-ov1" "10.1.0.9" ≡ none
addrs_hold_example =
    addrs_hold tables bridges node first_written has_addr host-KeepsAddrs seen host-Honours
      (record { ensure = λ o v p w. refl; remove = λ o v w. refl }) Snapshot.snapshot before after
      clean "pntfx-ov1" Snapshot.overlay refl "10.1.0.9"

abbrev old_bridge : Bridge
old_bridge = record { overlay_name = "ov1"; virtual_ip = "10.1.0.5"; pod_ip = "10.244.0.1" }

abbrev bridged : Host
bridged = record empty_host { bridges = old_bridge ∷ [] }

bridge_untouched_example :
    seen.bridges (reconcile tables bridges node first_written Snapshot.snapshot bridged).1 web
    ≡ some old_bridge
unfolding find want_bridges want_edge_bridges has put
bridge_untouched_example =
    bridge_untouched tables bridges seen host-Honours node first_written Snapshot.snapshot bridged
      web refl refl
