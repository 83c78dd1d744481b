-- ===== src/Examples/Host.antt =====
-- The routing tables and bridges of a host in memory honour their contract.
use std.Path.{fun_ext}
use pontifex.Base.{
  String, Bool, true, false, ◌&&◌, is_some, Option, ◌≡◌, ◌==◌, if◌then◌else◌, ℕ, List, [], ◌∷◌,
  none, refl, arith, ==-self, comparable_string, comparable_number,
}
use pontifex.GoMap.{GoMap}
use pontifex.GoMap.Ranges.{find, has_key, has_key-eq-is_some}
use pontifex.Effects.{ok}
use pontifex.Agent.Firewall.{Bridge, Firewall}
use pontifex.Agent.Routes.{Vrf, Addr, Rule, Route, Routes}
use pontifex.Agent.Routes.Wanted.{bridge_key, comparable_bridge_key}
use pontifex.Agent.Routes.Internal.Contract.{View, Honours}
use pontifex.Agent.Routes.Internal.Addresses.{KeepsAddrs}
use pontifex.Effects.Present.{present}
use pontifex.Examples.Memory.{discard, find-discard}

pub record Host : Type 0 where
  pub vrfs : List Vrf
  pub addrs : List Addr
  pub rules : List Rule
  pub tables : GoMap ℕ (List Route)
  pub bridges : List Bridge

abbrev pub empty_host : Host
empty_host = record { vrfs = []; addrs = []; rules = []; tables = []; bridges = [] }

abbrev pub addrs_of : String → List Addr → List Addr
addrs_of v [] = []
addrs_of v (a ∷ as') = let rest = addrs_of v as' in if a.vrf_name == v then a ∷ rest else rest

abbrev pub drop_addr : String → String → List Addr → List Addr
drop_addr v ip [] = []
drop_addr v ip (a ∷ as') =
    let rest = drop_addr v ip as' in if a.vrf_name == v && a.ip == ip then rest else a ∷ rest

-- Of the calls on routes, the reconcilers make `sync_routes` alone; the others do nothing here.
abbrev pub tables : Routes Host
tables = record {
  ensure_vrf = λ n t h. (none, record h { vrfs = record { name = n; table_id = t } ∷ h.vrfs });
  remove_vrf = λ n h. (none, record h { vrfs = discard Vrf.name n h.vrfs });
  list_vrfs = λ h. (ok h.vrfs, h);
  ensure_addr = λ v ip h. (none, record h { addrs = record { vrf_name = v; ip = ip } ∷ h.addrs });
  remove_addr = λ v ip h. (none, record h { addrs = drop_addr v ip h.addrs });
  list_addrs = λ v h. (ok (addrs_of v h.addrs), h);
  ensure_rule = λ u h. (none, record h { rules = u ∷ h.rules });
  remove_rule = λ u h. (none, record h { rules = discard Rule.table_id u.table_id h.rules });
  list_rules = λ h. (ok h.rules, h);
  add_route = λ t d g v h. (none, h);
  remove_route = λ t d h. (none, h);
  sync_routes = λ t rs h. (none, record h { tables = (t, rs) ∷ h.tables });
  list_routes = λ t h. (ok [], h);
}

abbrev pub bridges : Firewall Host
bridges = record {
  ensure_bridge = λ o v p h. (
    none,
    record h { bridges = record { overlay_name = o; virtual_ip = v; pod_ip = p } ∷ h.bridges },
  );
  remove_bridge = λ o v h. (
    none,
    record h {
      bridges = discard bridge_key (record { overlay_name = o; virtual_ip = v }) h.bridges;
    },
  );
  list_bridges = λ h. (ok h.bridges, h);
}

abbrev pub seen : View Host
seen = record {
  vrfs = λ h k. find Vrf.name k h.vrfs;
  rules = λ h k. find Rule.table_id k h.rules;
  bridges = λ h k. find bridge_key k h.bridges;
}

pub host-Honours : Honours tables bridges seen
unfolding find
host-Honours = record {
  lists_vrfs = record {
    unchanged = λ w. refl;
    complete = λ w xs k h. ground (arith, h, has_key-eq-is_some Vrf.name k xs);
  };
  removes_vrf = record {
    gone = λ x w h. ground (arith, find-discard Vrf.name x.name x.name w.vrfs, ==-self x.name);
    others = λ x w k h. ground (arith, h, find-discard Vrf.name x.name k w.vrfs);
  };
  ensures_vrf = record {
    there = λ x w h. ground (arith, ==-self x.name);
    others = λ x w k h. ground (arith, h);
  };
  lists_rules = record {
    unchanged = λ w. refl;
    complete = λ w xs k h. ground (arith, h, has_key-eq-is_some Rule.table_id k xs);
  };
  removes_rule = record {
    gone = λ x w h.
        ground
          (arith, find-discard Rule.table_id x.table_id x.table_id w.rules, ==-self x.table_id);
    others = λ x w k h. ground (arith, h, find-discard Rule.table_id x.table_id k w.rules);
  };
  ensures_rule = record {
    there = λ x w h. ground (arith, ==-self x.table_id);
    others = λ x w k h. ground (arith, h);
  };
  lists_bridges = record {
    unchanged = λ w. refl;
    complete = λ w xs k h. ground (arith, h, has_key-eq-is_some bridge_key k xs);
  };
  removes_bridge = record {
    gone = λ x w h.
        rw (find-discard bridge_key (bridge_key x) (bridge_key x) w.bridges, ==-self (bridge_key x))
          refl;
    others = λ x w k h. rw (find-discard bridge_key (bridge_key x) k w.bridges, h) refl;
  };
  ensures_bridge = record {
    there = λ x w h. rw (==-self (bridge_key x)) refl;
    others = λ x w k h. rw h refl;
  };
  vrf_calls-rules = record { ensure = λ n t w. refl; remove = λ n w. refl };
  vrf_calls-bridges = record { ensure = λ n t w. refl; remove = λ n w. refl };
  rule_calls-vrfs = record { ensure = λ u w. refl; remove = λ u w. refl };
  rule_calls-bridges = record { ensure = λ u w. refl; remove = λ u w. refl };
  bridge_calls-vrfs = record { ensure = λ o v p w. refl; remove = λ o v w. refl };
  bridge_calls-rules = record { ensure = λ o v p w. refl; remove = λ o v w. refl };
  route_calls-vrfs = record {
    listing = λ v w. refl;
    ensure = λ v ip w. refl;
    remove = λ v ip w. refl;
    sync = λ t rs w. refl;
  };
  route_calls-rules = record {
    listing = λ v w. refl;
    ensure = λ v ip w. refl;
    remove = λ v ip w. refl;
    sync = λ t rs w. refl;
  };
  route_calls-bridges = record {
    listing = λ v w. refl;
    ensure = λ v ip w. refl;
    remove = λ v ip w. refl;
    sync = λ t rs w. refl;
  };
}

abbrev pub has_addr : Host → String → String → Option (Unit {0})
has_addr h v ip = present (has_key Addr.ip ip (addrs_of v h.addrs))

is_some-present : (b : Bool) → is_some (present b) ≡ b
is_some-present true = refl
is_some-present false = refl

has_key-drop_addr :
    (v ip u j : String) (as' : List Addr)
    → has_key Addr.ip j (addrs_of u (drop_addr v ip as'))
      ≡ (if v == u && ip == j then false else has_key Addr.ip j (addrs_of u as'))
unfolding has_key
has_key-drop_addr v ip u j [] = ground arith
has_key-drop_addr v ip u j (a ∷ as') = ground (
  arith,
  comparable_string.equal_iff a.vrf_name v,
  comparable_string.equal_iff a.vrf_name u,
  comparable_string.equal_iff v u,
  comparable_string.equal_iff a.ip ip,
  comparable_string.equal_iff a.ip j,
  comparable_string.equal_iff ip j,
  has_key-drop_addr v ip u j as',
)

has_key-added :
    (v ip u j : String) (as' : List Addr)
    → has_key Addr.ip j (addrs_of u (record { vrf_name = v; ip = ip } ∷ as'))
      ≡ (if v == u && ip == j then true else has_key Addr.ip j (addrs_of u as'))
unfolding has_key
has_key-added v ip u j as' = ground arith

pub host-KeepsAddrs : KeepsAddrs tables has_addr
host-KeepsAddrs = record {
  lists = λ v. record {
    unchanged = λ w. refl;
    complete =
        λ w xs k h. ground (arith, h, is_some-present (has_key Addr.ip k (addrs_of v w.addrs)));
  };
  removes = λ v. record {
    gone = λ x w h. rw (has_key-drop_addr v x.ip v x.ip w.addrs, ==-self v, ==-self x.ip) refl;
    others = λ x w k h. rw (has_key-drop_addr v x.ip v k w.addrs, ==-self v, h) refl;
  };
  ensures = λ v. record {
    there = λ x w h. rw (has_key-added v x v x w.addrs, ==-self v, ==-self x) refl;
    others = λ x w k h. rw (has_key-added v x v k w.addrs, ==-self v, h) refl;
  };
  remove_others = λ v ip u w h. fun_ext λ j. rw (has_key-drop_addr v ip u j w.addrs, h) refl;
  ensure_others = λ v ip u w h. fun_ext λ j. rw (has_key-added v ip u j w.addrs, h) refl;
  sync = λ t rs w. refl;
}
