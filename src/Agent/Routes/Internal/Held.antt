-- ===== src/Agent/Routes/Internal/Held.antt =====
-- What the VRF of an overlay holds after a routes reconciliation of an internal node.
use pontifex.Base.{
  not, ℕ, String, Bool, ◌&&◌, ◌||◌, any, List, [], ◌∷◌, Option, none, some, ◌≡◌, refl, sym, ap, ◌∙◌,
  arith, ◌==◌, comparable_string, comparable_number, Bool-cases, Option-cases, inl, inr,
  if◌then◌else◌,
}
use pontifex.GoMap.{GoMap, GoSet, has, Runtime}
use pontifex.GoMap.Laws.{has-put}
use pontifex.GoMap.Last.{find_last}
use pontifex.Effects.{Run}
use pontifex.Effects.Sweeps.{world-attempt}
use pontifex.Effects.Present.{present}
use pontifex.Api.{NetworkOverlay, EdgeStatus}
use pontifex.Agent.Firewall.{Firewall}
use pontifex.Agent.Routes.{Route, Routes}
use pontifex.Agent.Routes.Tables.{vrf_name}
use pontifex.Agent.Routes.Wanted.{want_ips, serves, table_of}
use pontifex.Agent.Routes.Internal.{
  InternalReconciler, reconcile_addrs, sync_tables, reconcile_routes, reconcile,
}
use pontifex.Agent.Routes.Internal.Contract.{View, Honours, BridgeCallsKeep}
use pontifex.Agent.Routes.Internal.Convergence.{bridges_keep, bridges_clean}
use pontifex.Agent.Routes.Internal.Stages.{middle, sync_clean, after_rules, steps_of_clean}
use pontifex.Agent.Routes.Internal.Addresses.{KeepsAddrs, after_overlays, addrs_settle}

-- The overlays whose VRF the loop visits.
abbrev pub visited : List NetworkOverlay → List NetworkOverlay
visited [] = []
visited (ov ∷ ovs) = let rest = visited ovs in if ov.status.community == "" then rest else ov ∷ rest

-- Whether an edge on the node `n` is ready and serves the address, which is not blank; and whether one
-- of the overlay's edges does.
abbrev serves_ip : String → String → EdgeStatus → Bool
serves_ip n ip edge =
    (edge.node_name == n && edge.ready && not (edge.virtual_ip == "")) && edge.virtual_ip == ip

abbrev pub is_served : String → NetworkOverlay → String → Bool
is_served n ov ip = any (serves_ip n ip) ov.status.edges

has-want_ips :
    (n : String) (edges : List EdgeStatus) (ip : String) (m : GoSet String)
    → has ip (want_ips n edges m) ≡ (any (serves_ip n ip) edges || has ip m)
unfolding want_ips
has-want_ips n [] ip m = refl
has-want_ips n (edge ∷ edges) ip m = has-want_ips n edges ip _ ∙ elim (Bool-cases (serves n edge)) [
  | inl p ↦ rw p (ground (arith, has-put edge.virtual_ip ip tt m))
  | inr p ↦ rw p refl
]

-- What the VRF of the overlay `o` holds; without an overlay it stays `base`.
abbrev pub held : String → String → Option (Unit {0}) → Option NetworkOverlay → Option (Unit {0})
held n ip base none = base
held n ip base (some ov) = present (is_served n ov ip)

after_overlays_lem :
    (n : String) (ovs : List NetworkOverlay) (vrf ip : String) (base : Option (Unit {0}))
    (o : Option NetworkOverlay)
    → after_overlays n ovs vrf ip (held n ip base o)
      ≡ held n ip base (find_last (λ ov. vrf_name ov.name) vrf (visited ovs) o)
unfolding has
after_overlays_lem n [] vrf ip base o = refl
after_overlays_lem n (ov ∷ ovs) vrf ip base o = elim (Bool-cases (ov.status.community == "")) [
  | inl p ↦ rw p (after_overlays_lem n ovs vrf ip base o)
  | inr p ↦
      let next = λ (b : Bool).
        held n ip base
          (find_last (λ o. vrf_name o.name) vrf (visited ovs) (if b then some ov else o)) in
      elim (Bool-cases (vrf_name ov.name == vrf)) [
        | inl q ↦
            rw (p, q)
              (ap (after_overlays n ovs vrf ip)
                  (ap present (has-want_ips n ov.status.edges ip [] ∙ ground arith))
                ∙ after_overlays_lem n ovs vrf ip base (some ov)
                ∙ ap next (sym q))
        | inr q ↦ rw (p, q) (after_overlays_lem n ovs vrf ip base o ∙ ap next (sym q))
      ]
]

module _ {W : Type 0} (routes : Routes W) (firewall : Firewall W) (r : InternalReconciler)
    (rt : Runtime) (addrs : W → String → String → Option (Unit {0}))
    (keeps : KeepsAddrs routes addrs) where
  sync_keeps :
      (by_table : GoMap ℕ (List Route)) (ovs : List NetworkOverlay) (s : Run W)
      → addrs (sync_tables routes firewall r rt by_table ovs s).world ≡ addrs s.world
  unfolding sync_tables
  sync_keeps by_table [] s = refl
  sync_keeps by_table (ov ∷ ovs) s = sync_keeps by_table ovs _ ∙ elim (Option-cases (table_of ov)) [
    | inl p ↦ rw p refl
    | inr (tid, p) ↦ rw p (ap addrs (world-attempt _ _ s) ∙ keeps.sync tid _ s.world)
  ]

  -- When `Reconcile` returns nil, the VRF of each overlay that has a community holds exactly the
  -- virtual addresses of the ready edges of this overlay on this node. Of overlays with one name,
  -- the last one counts.
  pub addrs_hold :
      (view : View W)
      → Honours routes firewall view
      → BridgeCallsKeep firewall addrs
      → (ovs : List NetworkOverlay) (w w' : W) → reconcile routes firewall r rt ovs w ≡ ([], w')
      → (vrf : String) (ov : NetworkOverlay)
      → find_last (λ o. vrf_name o.name) vrf (visited ovs) none ≡ some ov
      → (ip : String) → addrs w' vrf ip ≡ present (is_served r.node_name ov ip)
  unfolding reconcile_routes
  addrs_hold view honest bridges ovs w w' h vrf ov found ip =
      let (_, _, bd, clean, e) = steps_of_clean routes firewall r rt ovs w w' h in
      let s2 = after_rules routes firewall r rt ovs w in
      let s3 = middle routes firewall r rt ovs s2 in
      let c3 = bridges_clean routes firewall view honest r rt ovs s3 bd clean in
      ap (λ v. addrs v vrf ip) (sym e)
      ∙ ap (λ f. f vrf ip)
          (bridges_keep routes firewall view honest r rt ovs s3 addrs bridges
            ∙ sync_keeps _ ovs (reconcile_addrs routes firewall r rt 0 ovs s2))
      ∙ addrs_settle routes firewall r rt addrs keeps 0 ovs s2 vrf ip
          (sync_clean routes firewall r rt _ ovs _ c3)
      ∙ after_overlays_lem r.node_name ovs vrf ip (addrs s2.world vrf ip) none
      ∙ ap (held r.node_name ip (addrs s2.world vrf ip)) found
