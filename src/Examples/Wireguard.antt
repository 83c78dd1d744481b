-- ===== src/Examples/Wireguard.antt =====
-- The WireGuard reconciler, on a host with one stale interface, and with the keys in a map.
use pontifex.Base.{
  String, false, List, [], ◌∷◌, none, some, ◌≡◌, refl, arith, ==-self, comparable_string,
}
use pontifex.GoMap.{get, has, put, values, entries}
use pontifex.GoMap.Ranges.{find, has_key-eq-is_some}
use pontifex.Effects.{Result, other, Query, ok, err, attempt, sweep}
use pontifex.Agent.Wireguard.{
  Interface, Manager, Reconciler, iface_name, wanted_interface, gathered, gather, gather_one,
  reconcile,
}
use pontifex.Agent.Wireguard.Skips.{Honours, skipped_untouched}
use pontifex.Agent.Wireguard.Content.{reader, gathered_lem}
use pontifex.Agent.Wireguard.Exactly.{exactly_desired}
use pontifex.Examples.Memory.{first_written, discard, find-discard}
use pontifex.Examples.Snapshot.{snapshot, overlay}

abbrev memory : Manager (List Interface)
memory = record {
  ensure_interface = λ i w. (none, i ∷ w);
  remove_interface = λ n w. (none, discard Interface.name n w);
  list_interfaces = λ w. (ok w, w);
}

memory-Honours : Honours memory (λ w k. find Interface.name k w)
unfolding find
memory-Honours = record {
  lists = record {
    unchanged = λ w. refl;
    complete = λ w xs k h. ground (arith, h, has_key-eq-is_some Interface.name k xs);
  };
  removes = record {
    gone = λ x w h. ground (arith, find-discard Interface.name x.name x.name w, ==-self x.name);
    others = λ x w k h. ground (arith, h, find-discard Interface.name x.name k w);
  };
  ensures = record {
    there = λ x w h. ground (arith, ==-self x.name);
    others = λ x w k h. ground (arith, h);
  };
}

abbrev mounted : List String → Query (List Interface) String
mounted path w = (ok "k1\n", w)

abbrev not_mounted : List String → Query (List Interface) String
not_mounted path w = (err (other "no such file or directory"), w)

abbrev gateway : Reconciler
gateway = record { wg_key_dir = "/etc/pontifex"; listen = 51820 }

abbrev live : Interface
live = record { name = "pntfx-ov1"; private_key = "k0"; listen_port = 51820; peers = [] }

abbrev before : List Interface
before = record live { name = "pntfx-gone" } ∷ live ∷ []

after : List Interface
after = (reconcile memory mounted gateway first_written snapshot before).1

clean : reconcile memory mounted gateway first_written snapshot before ≡ ([], after)
unfolding after reconcile gather gather_one sweep attempt values entries has put discard iface_name
clean = refl

exactly_desired_example :
    find Interface.name "pntfx-ov1" after ≡ some (wanted_interface gateway overlay "k1\n")
unfolding gather gather_one get put iface_name
exactly_desired_example =
    exactly_desired memory mounted (λ w k. find Interface.name k w) memory-Honours (λ path w. refl)
      gateway first_written snapshot before after clean "pntfx-ov1"

skipped_untouched_example :
    find Interface.name "pntfx-ov1"
      (reconcile memory not_mounted gateway first_written snapshot before).1
    ≡ find Interface.name "pntfx-ov1" before
unfolding gather gather_one has put iface_name
skipped_untouched_example =
    skipped_untouched memory not_mounted (λ w k. find Interface.name k w) memory-Honours
      (λ path w. refl) gateway first_written snapshot before "pntfx-ov1" refl refl

abbrev mount : List String → Result String
mount path = ok "k1\n"

gathered_lem_example :
    (get "pntfx-ov1" (gathered memory (reader mount) gateway snapshot before).desired
      ≡ some (wanted_interface gateway overlay "k1\n"))
    × (has "pntfx-ov1" (gathered memory (reader mount) gateway snapshot before).skip ≡ false)
unfolding iface_name
gathered_lem_example = gathered_lem mount gateway memory "pntfx-ov1" snapshot before
