-- ===== src/Agent/Routes/Internal/Contract.antt =====
-- What the routes reconciler of an internal node relies on of its host. VRFs are keyed by name, the
-- agent's ip rules by table (it never makes two for one table) and bridges by overlay and virtual
-- address; each call acts on the item of its key alone and on no other kind, and a listing reports
-- what is there.
use pontifex.Base.{ℕ, String, Option, ◌≡◌, comparable_string, comparable_number}
use pontifex.Effects.Keyed.{Removes, Installs, Lists}
use pontifex.Effects.Succeeds.{Works, Answers}
use pontifex.Agent.Firewall.{Bridge, Firewall}
use pontifex.Agent.Routes.{Vrf, Rule, Route, Routes}
use pontifex.Agent.Routes.Wanted.{BridgeKey, bridge_key, comparable_bridge_key}
use pontifex.Base.{List}

-- The parts of a host that a client can see.
pub record View (W : Type 0) : Type 0 where
  pub vrfs : W → String → Option Vrf
  pub rules : W → ℕ → Option Rule
  pub bridges : W → BridgeKey → Option Bridge

-- A part of the host that the calls on VRFs, on rules, on bridges, or on addresses and routes
-- leave as it is.
pub record VrfCallsKeep {W B : Type 0} (routes : Routes W) (f : W → B) : Type 0 where
  pub ensure : (n : String) (t : ℕ) (w : W) → f (routes.ensure_vrf n t w).1 ≡ f w
  pub remove : (n : String) (w : W) → f (routes.remove_vrf n w).1 ≡ f w

pub record RuleCallsKeep {W B : Type 0} (routes : Routes W) (f : W → B) : Type 0 where
  pub ensure : (u : Rule) (w : W) → f (routes.ensure_rule u w).1 ≡ f w
  pub remove : (u : Rule) (w : W) → f (routes.remove_rule u w).1 ≡ f w

pub record BridgeCallsKeep {W B : Type 0} (firewall : Firewall W) (f : W → B) : Type 0 where
  pub ensure : (o v p : String) (w : W) → f (firewall.ensure_bridge o v p w).1 ≡ f w
  pub remove : (o v : String) (w : W) → f (firewall.remove_bridge o v w).1 ≡ f w

pub record RouteCallsKeep {W B : Type 0} (routes : Routes W) (f : W → B) : Type 0 where
  pub listing : (v : String) (w : W) → f (routes.list_addrs v w).1 ≡ f w
  pub ensure : (v ip : String) (w : W) → f (routes.ensure_addr v ip w).1 ≡ f w
  pub remove : (v ip : String) (w : W) → f (routes.remove_addr v ip w).1 ≡ f w
  pub sync : (t : ℕ) (rs : List Route) (w : W) → f (routes.sync_routes t rs w).1 ≡ f w

pub record Honours {W : Type 0} (routes : Routes W) (firewall : Firewall W) (view : View W)
    : Type 0 where
  pub lists_vrfs : Lists view.vrfs Vrf.name routes.list_vrfs
  pub removes_vrf : Removes view.vrfs Vrf.name (λ v. routes.remove_vrf v.name)
  pub ensures_vrf : Installs view.vrfs Vrf.name (λ v. v) (λ v. routes.ensure_vrf v.name v.table_id)
  pub lists_rules : Lists view.rules Rule.table_id routes.list_rules
  pub removes_rule : Removes view.rules Rule.table_id (λ u. routes.remove_rule u)
  pub ensures_rule : Installs view.rules Rule.table_id (λ u. u) (λ u. routes.ensure_rule u)
  pub lists_bridges : Lists view.bridges bridge_key firewall.list_bridges
  pub removes_bridge :
      Removes view.bridges bridge_key (λ b. firewall.remove_bridge b.overlay_name b.virtual_ip)
  pub ensures_bridge :
      Installs view.bridges bridge_key
        (λ b. b)
        (λ b. firewall.ensure_bridge b.overlay_name b.virtual_ip b.pod_ip)
  pub vrf_calls-rules : VrfCallsKeep routes view.rules
  pub vrf_calls-bridges : VrfCallsKeep routes view.bridges
  pub rule_calls-vrfs : RuleCallsKeep routes view.vrfs
  pub rule_calls-bridges : RuleCallsKeep routes view.bridges
  pub bridge_calls-vrfs : BridgeCallsKeep firewall view.vrfs
  pub bridge_calls-rules : BridgeCallsKeep firewall view.rules
  pub route_calls-vrfs : RouteCallsKeep routes view.vrfs
  pub route_calls-rules : RouteCallsKeep routes view.rules
  pub route_calls-bridges : RouteCallsKeep routes view.bridges

-- A host on which every call of the reconciler returns nil, whatever its state.
pub record AllWork {W : Type 0} (routes : Routes W) (firewall : Firewall W) : Type 0 where
  pub list_vrfs : Answers routes.list_vrfs
  pub ensure_vrf : (name : String) (table_id : ℕ) → Works (routes.ensure_vrf name table_id)
  pub remove_vrf : (name : String) → Works (routes.remove_vrf name)
  pub list_rules : Answers routes.list_rules
  pub ensure_rule : (rule : Rule) → Works (routes.ensure_rule rule)
  pub remove_rule : (rule : Rule) → Works (routes.remove_rule rule)
  pub list_addrs : (vrf : String) → Answers (routes.list_addrs vrf)
  pub ensure_addr : (vrf ip : String) → Works (routes.ensure_addr vrf ip)
  pub remove_addr : (vrf ip : String) → Works (routes.remove_addr vrf ip)
  pub sync_routes : (table_id : ℕ) (rs : List Route) → Works (routes.sync_routes table_id rs)
  pub list_bridges : Answers firewall.list_bridges
  pub ensure_bridge : (overlay vip pod : String) → Works (firewall.ensure_bridge overlay vip pod)
  pub remove_bridge : (overlay vip : String) → Works (firewall.remove_bridge overlay vip)
