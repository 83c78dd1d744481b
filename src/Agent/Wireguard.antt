-- ===== src/Agent/Wireguard.antt =====
-- apps/agent/internal/reconcilers/wireguard/reconciler.go and apps/agent/internal/libs/wg/interface.go:
-- one WireGuard interface for each overlay, on a gateway. Names of Kubernetes objects are ASCII, so
-- that a byte of a name is a character.
pub mod Exactly
pub mod Skips
pub mod Content
use Prim.Native.Char.{Char, code}
use pontifex.Base.{
  ℕ, zero, suc, ◌-◌, ◌<>◌, String, Bool, true, false, not, ◌&&◌, ◌||◌, List, [], ◌∷◌, ◌++◌, ◌==◌,
  any, comparable_string, comparable_number, leb, ltb, if◌then◌else◌,
}
use pontifex.GoMap.{GoMap, GoSet, has, put, insert, Runtime, values}
use pontifex.Effects.{
  Error, wrap, Result, ok, err, Call, Query, Run, Action, ◌>>=◌, ◌>>◌, query, perform, sweep,
  finish,
}
use pontifex.Api.{NetworkOverlay}
use pontifex.Api as Api

pub record Peer : Type 0 where
  pub public_key : String
  pub endpoint : String
  pub allowed_ips : List String

pub record Interface : Type 0 where
  pub name : String
  pub private_key : String
  pub listen_port : ℕ
  pub peers : List Peer

pub record Manager (W : Type 0) : Type 0 where
  pub ensure_interface : Interface → Call W
  pub remove_interface : String → Call W
  pub list_interfaces : Query W (List Interface)

pub record Reconciler : Type 0 where
  pub wg_key_dir : String
  pub listen : ℕ

abbrev iface_max_len : ℕ
iface_max_len = 15

unfoldable pub text_length : String → ℕ
text_length String.[] = 0
text_length (String.◌∷◌ c s) = suc (text_length s)

-- `name[:n]`
unfoldable pub text_take : ℕ → String → String
text_take zero s = ""
text_take (suc n) String.[] = ""
text_take (suc n) (String.◌∷◌ c s) = String.◌∷◌ c (text_take n s)

-- `ifaceName`
unfoldable pub iface_name : String → String
unfolding text_length text_take
iface_name overlay_name =
    let name = "pntfx-" <> overlay_name in
    if ltb iface_max_len (text_length name) then text_take iface_max_len name else name

-- `unicode.IsSpace`
abbrev is_space : Char → Bool
is_space c =
    let n = code c in
    (leb 9 n && leb n 13)
    || n == 32
    || n == 133
    || n == 160
    || n == 5760
    || (leb 8192 n && leb n 8202)
    || n == 8232
    || n == 8233
    || n == 8239
    || n == 8287
    || n == 12288

trim_left : String → String
trim_left String.[] = ""
trim_left (String.◌∷◌ c s) = let rest = trim_left s in if is_space c then rest else String.◌∷◌ c s

trim_right : String → String
trim_right String.[] = ""
trim_right (String.◌∷◌ c s) =
    let rest = trim_right s in if is_space c && rest == "" then "" else String.◌∷◌ c rest

-- `strings.TrimSpace`
unfoldable pub trim_space : String → String
unfolding trim_left trim_right
trim_space s = trim_left (trim_right s)

abbrev pub wanted_peers : List Api.Peer → List Peer
wanted_peers [] = []
wanted_peers (p ∷ ps) =
    record { public_key = p.public_key; endpoint = p.endpoint; allowed_ips = p.allowed_ips }
    ∷ wanted_peers ps

abbrev pub wanted_interface : Reconciler → NetworkOverlay → String → Interface
wanted_interface r ov key = record {
  name = iface_name ov.name;
  private_key = trim_space key;
  listen_port = r.listen;
  peers = wanted_peers ov.spec.peers;
}

-- The variables of the first loop.
pub record Gathered (W : Type 0) : Type 0 where
  pub desired : GoMap String Interface
  pub skip : GoSet String
  pub run : Run W

-- `read_file` is `os.ReadFile` of the path that `filepath.Join` makes of its argument.
module _ {W : Type 0} (mgr : Manager W) (read_file : List String → Query W String)
    (r : Reconciler) where
  abbrev pub key_read : NetworkOverlay → Result String → W → Gathered W → Gathered W
  key_read ov (ok key) w g = record g {
    desired = put (iface_name ov.name) (wanted_interface r ov key) g.desired;
    run = record { errs = g.run.errs; world = w };
  }
  key_read ov (err x) w g = record g {
    skip = insert (iface_name ov.name) g.skip;
    run = record {
      errs = g.run.errs ++ wrap ("overlay " <> ov.name <> ": read private key") x ∷ [];
      world = w;
    };
  }

  unfoldable pub gather_one : NetworkOverlay → Gathered W → Gathered W
  gather_one ov g =
      let (key, w) = read_file (r.wg_key_dir ∷ ov.name ∷ "private" ∷ []) g.run.world in
      key_read ov key w g

  unfoldable pub gather : List NetworkOverlay → Gathered W → Gathered W
  gather [] g = g
  gather (ov ∷ ovs) g = gather ovs (gather_one ov g)

  abbrev pub gathered : List NetworkOverlay → W → Gathered W
  gathered overlays w =
      gather overlays (record { desired = []; skip = []; run = record { errs = []; world = w } })

  -- `Reconcile`
  unfoldable pub reconcile : Runtime → List NetworkOverlay → W → List Error × W
  unfolding gather
  reconcile rt overlays w =
      let g = gathered overlays w in
      let (res, s) =
        (do
          actual ← query "list wg interfaces" mgr.list_interfaces
          perform (
              sweep (λ i. has (Interface.name i) g.desired || has (Interface.name i) g.skip)
                (λ i. "remove interface " <> i.name) (λ i. mgr.remove_interface i.name) actual)
          perform (
              sweep (λ i. false) (λ i. "ensure interface " <> Interface.name i) mgr.ensure_interface
                (values rt 0 g.desired)))
          g.run in
      finish res s
