-- ===== src/Operator/Controller/Equal.antt =====
-- What `reflect.DeepEqual` finds equal is equal.
use pontifex.Base.{
  Bool, true, false, String, List, [], ◌∷◌, ◌≡◌, refl, arith, comparable_string, ◌==◌, ◌&&◌,
}
use pontifex.Api.{Gateway, EdgeStatus}
use pontifex.Operator.Controller.{bool_equal, gateway_equal, edge_equal, all_equal, deep_equal}

bool_equal_lem : (a b : Bool) → bool_equal a b ≡ true → a ≡ b
bool_equal_lem true b h = ground (arith, h)
bool_equal_lem false true h = cc
bool_equal_lem false false h = refl

pub split_and : (a b : Bool) → (a && b) ≡ true → (a ≡ true) × (b ≡ true)
split_and true b h = (refl, h)
split_and false b h = cc

pub same : (a b : String) → (a == b) ≡ true → a ≡ b
same a b h = ground (arith, h, comparable_string.equal_iff a b)

gateway_equal_lem : (g h : Gateway) → gateway_equal g h ≡ true → g ≡ h
gateway_equal_lem g h e =
    let (p, last) = split_and _ _ e in
    let (p', public) = split_and _ _ p in
    let (name, ip) = split_and _ _ p' in
    λ i. record {
      node_name = same g.node_name h.node_name name i;
      node_ip = same g.node_ip h.node_ip ip i;
      public_ip = same g.public_ip h.public_ip public i;
      is_secondary = bool_equal_lem g.is_secondary h.is_secondary last i;
    }

edge_equal_lem : (a b : EdgeStatus) → edge_equal a b ≡ true → a ≡ b
edge_equal_lem a b e =
    let (p, last) = split_and _ _ e in
    let (p1, node_ip) = split_and _ _ p in
    let (p2, node) = split_and _ _ p1 in
    let (p3, pod_ip) = split_and _ _ p2 in
    let (p4, pod) = split_and _ _ p3 in
    let (virtual, namespace) = split_and _ _ p4 in
    λ i. record {
      virtual_ip = same a.virtual_ip b.virtual_ip virtual i;
      pod_namespace = same a.pod_namespace b.pod_namespace namespace i;
      pod_name = same a.pod_name b.pod_name pod i;
      pod_ip = same a.pod_ip b.pod_ip pod_ip i;
      node_name = same a.node_name b.node_name node i;
      node_ip = same a.node_ip b.node_ip node_ip i;
      ready = bool_equal_lem a.ready b.ready last i;
    }

module _ {A : Type 0} (equal : A → A → Bool) (sound : (x y : A) → equal x y ≡ true → x ≡ y) where
  all_equal_lem : (xs ys : List A) → all_equal equal xs ys ≡ true → xs ≡ ys
  all_equal_lem [] [] h = refl
  all_equal_lem [] (y ∷ ys) h = cc
  all_equal_lem (x ∷ xs) [] h = cc
  all_equal_lem (x ∷ xs) (y ∷ ys) h =
      let (first, rest) = split_and _ _ h in λ i. sound x y first i ∷ all_equal_lem xs ys rest i

  deep_equal_lem : (xs ys : List A) → deep_equal equal xs ys ≡ true → xs ≡ ys
  deep_equal_lem [] ys h = cc
  deep_equal_lem (x ∷ xs) ys h = all_equal_lem (x ∷ xs) ys h

pub equal_gateways : (g h : List Gateway) → deep_equal gateway_equal g h ≡ true → g ≡ h
equal_gateways = deep_equal_lem gateway_equal gateway_equal_lem

pub equal_edges : (a b : List EdgeStatus) → deep_equal edge_equal a b ≡ true → a ≡ b
equal_edges = deep_equal_lem edge_equal edge_equal_lem
