-- ===== src/Agent/Wireguard/Content.antt =====
-- Which interfaces a gateway desires and which it skips, when files do not change while they are read.
use pontifex.Base.{
  ◌&&◌, String, Bool, true, false, ◌||◌, List, [], ◌∷◌, none, ◌≡◌, refl, ap, ◌∙◌, any, arith, ◌==◌,
  comparable_string, inl, inr,
}
use pontifex.GoMap.{get, has}
use pontifex.GoMap.Laws.{get-put, has-put}
use pontifex.GoMap.Last.{find_last}
use pontifex.Effects.{Result, ok, err, Query}
use pontifex.Effects.Converge.{Result-cases}
use pontifex.Api.{NetworkOverlay}
use pontifex.Agent.Wireguard.{
  Interface, Manager, Reconciler, iface_name, wanted_interface, Gathered, gather_one, gather,
  gathered,
}

abbrev pub reader : {W : Type 0} → (List String → Result String) → List String → Query W String
reader files path w = (files path, w)

module _ (files : List String → Result String) (r : Reconciler) where
  abbrev key_file : NetworkOverlay → Result String
  key_file ov = files (r.wg_key_dir ∷ ov.name ∷ "private" ∷ [])

  -- The interfaces of the overlays whose key can be read, in order.
  abbrev pub readable : List NetworkOverlay → List Interface
  readable [] = []
  readable (ov ∷ ovs) =
      let rest = readable ovs in
      elim (key_file ov) [ ok key ↦ wanted_interface r ov key ∷ rest | err x ↦ rest ]

  abbrev is_unreadable : Result String → Bool
  is_unreadable (ok key) = false
  is_unreadable (err x) = true

  -- An overlay with the interface name `k` has a key that cannot be read.
  abbrev pub unreadable : String → List NetworkOverlay → Bool
  unreadable k ovs = any (λ ov. is_unreadable (key_file ov) && iface_name ov.name == k) ovs

  module _ {W : Type 0} (mgr : Manager W) (k : String) where
    get-gather :
        (ovs : List NetworkOverlay) (g : Gathered W)
        → get k (gather mgr (reader files) r ovs g).desired
          ≡ find_last Interface.name k (readable ovs) (get k g.desired)
    unfolding gather gather_one
    get-gather [] g = refl
    get-gather (ov ∷ ovs) g = get-gather ovs _ ∙ elim (Result-cases (key_file ov)) [
      | inl (key, e) ↦
          rw (e, gather_one, readable)
            (ap (find_last Interface.name k (readable ovs))
              (get-put (iface_name ov.name) k (wanted_interface r ov key) g.desired))
      | inr (x, e) ↦ rw (e, gather_one, readable) refl
    ]

    has-gather :
        (ovs : List NetworkOverlay) (g : Gathered W)
        → has k (gather mgr (reader files) r ovs g).skip ≡ (has k g.skip || unreadable k ovs)
    unfolding gather gather_one
    has-gather [] g = ground arith
    has-gather (ov ∷ ovs) g = has-gather ovs _ ∙ elim (Result-cases (key_file ov)) [
      | inl (key, e) ↦ rw (e, gather_one, unreadable) refl
      | inr (x, e) ↦
          rw (e, gather_one, unreadable)
            (ground (
              arith,
              has-put (iface_name ov.name) k tt g.skip,
              comparable_string.equal_iff (iface_name ov.name) k,
            ))
    ]

    -- Under each name a gateway desires the interface of the last overlay with that interface name
    -- whose key can be read, and it skips the names of the overlays whose key cannot be read.
    pub gathered_lem :
        (ovs : List NetworkOverlay) (w : W)
        → (get k (gathered mgr (reader files) r ovs w).desired
            ≡ find_last Interface.name k (readable ovs) none)
          × (has k (gathered mgr (reader files) r ovs w).skip ≡ unreadable k ovs)
    unfolding get has
    gathered_lem ovs w = (get-gather ovs _, has-gather ovs _)
