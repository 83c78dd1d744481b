-- ===== src/Agent/Routes/Wanted/Tenancy.antt =====
-- Which learned routes an internal node puts into the table of an overlay.
use pontifex.Base.{
  ℕ, String, Bool, false, not, ◌&&◌, List, [], ◌∷◌, ◌++◌, Option, none, some, ◌≡◌, refl, sym, ap,
  ◌∙◌, any, arith, ◌==◌, comparable_string, comparable_number, Option-cases, Bool-cases, inl, inr,
  if◌then◌else◌,
}
use mathlib.Core.List.{append-nil, append_assoc}
use pontifex.GoMap.{GoMap, get, put}
use pontifex.GoMap.Laws.{get-put}
use pontifex.Api.{NetworkOverlay}
use pontifex.Agent.Bgp as Bgp
use pontifex.Agent.Routes.{Route}
use pontifex.Agent.Routes.Tables.{vrf_table_id}
use pontifex.Agent.Routes.Wanted.{
  table_of, OverlayInfo, community_map, or_empty, learned_route, place_route, routes_by_table,
}

-- The table of the community `c`, if an overlay has `c` and it names a table.
abbrev pub community_table : List NetworkOverlay → String → Option ℕ
community_table overlays c =
    if not (c == "") && any (λ ov. ov.status.community == c) overlays then vrf_table_id c else none

abbrev pub or_table : Option ℕ → Option ℕ → Option ℕ
or_table (some t) old = some t
or_table none old = old

-- The table of the first of the communities that has one.
abbrev pub home_table : List NetworkOverlay → List String → Option ℕ
home_table overlays [] = none
home_table overlays (c ∷ cs) = or_table (community_table overlays c) (home_table overlays cs)

abbrev pub is_table : ℕ → Option ℕ → Bool
is_table tid none = false
is_table tid (some t) = t == tid

-- The routes whose home is `tid`, in order.
abbrev pub routes_of_table : List NetworkOverlay → ℕ → List Bgp.Route → List Route
routes_of_table overlays tid [] = []
routes_of_table overlays tid (rt ∷ rts) =
    let rest = routes_of_table overlays tid rts in
    if is_table tid (home_table overlays rt.communities) then learned_route tid rt ∷ rest else rest

abbrev info_table : Option OverlayInfo → Option ℕ
info_table none = none
info_table (some info) = some info.table_id

or_table-none : (o : Option ℕ) → or_table o none ≡ o
or_table-none o = ground arith

table-get-community_map :
    (c : String) (ovs : List NetworkOverlay) (m : GoMap String OverlayInfo)
    → info_table (get c (community_map ovs m))
      ≡ or_table (community_table ovs c) (info_table (get c m))
unfolding community_map table_of
table-get-community_map c [] m = ground arith
table-get-community_map c (ov ∷ ovs) m =
    table-get-community_map c ovs _ ∙ elim (Option-cases (vrf_table_id ov.status.community)) [
      | inl e ↦
          rw (e, table_of)
            (ground (
              arith,
              e,
              comparable_string.equal_iff ov.status.community c,
              comparable_string.equal_iff ov.status.community "",
              comparable_string.equal_iff c "",
            ))
      | inr (tid, e) ↦
          rw (e, table_of)
            (ground (
              arith,
              e,
              get-put ov.status.community c (record { name = ov.name; table_id = tid }) m,
              comparable_string.equal_iff ov.status.community c,
              comparable_string.equal_iff ov.status.community "",
              comparable_string.equal_iff c "",
            ))
    ]

or_empty-put :
    (t tid : ℕ) (rt : Bgp.Route) (m : GoMap ℕ (List Route))
    → or_empty (get tid (put t (or_empty (get t m) ++ learned_route t rt ∷ []) m))
      ≡ or_empty (get tid m) ++ (if t == tid then learned_route tid rt ∷ [] else [])
or_empty-put t tid rt m =
    ap or_empty (get-put t tid (or_empty (get t m) ++ learned_route t rt ∷ []) m)
    ∙ elim (Bool-cases (t == tid)) [
      | inl p ↦ rw p (
          ap (λ j. or_empty (get j m) ++ learned_route j rt ∷ [])
            ((comparable_number.equal_iff t tid).0 p))
      | inr p ↦ rw p (sym (append-nil _))
    ]

module _ (ovs : List NetworkOverlay) (tid : ℕ) where
  placed : Bgp.Route → GoMap ℕ (List Route) → Option ℕ → List Route
  placed rt m home =
      or_empty (get tid m) ++ (if is_table tid home then learned_route tid rt ∷ [] else [])

  or_empty-place_route :
      (rt : Bgp.Route) (cs : List String) (m : GoMap ℕ (List Route))
      → or_empty (get tid (place_route (community_map ovs []) rt cs m))
        ≡ placed rt m (home_table ovs cs)
  unfolding place_route placed get
  or_empty-place_route rt [] m = sym (append-nil _)
  or_empty-place_route rt (c ∷ cs) m =
      let known = sym (table-get-community_map c ovs [] ∙ or_table-none (community_table ovs c)) in
      let home = λ (o : Option ℕ). placed rt m (or_table o (home_table ovs cs)) in
      elim (Option-cases (get c (community_map ovs []))) [
        | inl e ↦
            rw (e, place_route)
              (or_empty-place_route rt cs m ∙ ap home (sym (known ∙ ap info_table e)))
        | inr (info, e) ↦
            rw (e, place_route)
              (or_empty-put info.table_id tid rt m ∙ ap home (sym (known ∙ ap info_table e)))
      ]

  or_empty-routes_by_table :
      (rts : List Bgp.Route) (m : GoMap ℕ (List Route))
      → or_empty (get tid (routes_by_table (community_map ovs []) rts m))
        ≡ or_empty (get tid m) ++ routes_of_table ovs tid rts
  unfolding routes_by_table placed
  or_empty-routes_by_table [] m = sym (append-nil _)
  or_empty-routes_by_table (rt ∷ rts) m =
      or_empty-routes_by_table rts _
      ∙ ap (λ l. l ++ routes_of_table ovs tid rts) (or_empty-place_route rt rt.communities m)
      ∙ append_assoc (or_empty (get tid m)) _ (routes_of_table ovs tid rts)
      ∙ ap (λ l. or_empty (get tid m) ++ l)
          (elim (Bool-cases (is_table tid (home_table ovs rt.communities))) [
            | inl p ↦ rw p refl
            | inr p ↦ rw p refl
          ])

  -- The routes that an internal node gives to the table `tid` are exactly those learned routes
  -- whose home it is, in the order of the loop: the home of a route is the table of the first of its
  -- communities that an overlay has and that names a table.
  pub routes_of_tenant :
      (rts : List Bgp.Route)
      → or_empty (get tid (routes_by_table (community_map ovs []) rts []))
        ≡ routes_of_table ovs tid rts
  unfolding get
  routes_of_tenant rts = or_empty-routes_by_table rts []
