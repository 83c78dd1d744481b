-- ===== src/Agent/Manager/Progress.antt =====
-- The loops of an agent get on with what is waiting for them.
use pontifex.Base.{ℕ, ◌+◌, true, List, [], ◌∷◌, ◌++◌, ◌≡◌, refl, ap, ◌∙◌, arith, length}
use pontifex.GoChan.{Chan, value, ready, taken}
use pontifex.Api.{NetworkOverlay}
use pontifex.Agent.Bgp.{RouteEvent}
use pontifex.Agent.RoutesUpdater.{RoutesReconciler, snapshot, bgp_event}
use pontifex.Agent.Manager.{
  Reconciler, System, Move, bgp_turn, updater_turn, bgp_round, received, updater_round, takes_bgp,
  takes_updater, Runs, stay, next, offers_snapshot, offers_event,
}

ready_first :
    {A : Type 0} {x : A} {xs : List A} (c : Chan A)
    → c.buffer ≡ x ∷ xs
    → (ready c ≡ value x) × ((taken c).buffer ≡ xs)
unfolding ready taken
ready_first c h = (ground (arith, h), ground (arith, h))

length-append : {A : Type 0} (xs ys : List A) → length (xs ++ ys) ≡ length xs + length ys
length-append [] ys = omega arith
length-append (x ∷ xs) ys = omega (arith, length-append xs ys)

module _ {R W D : Type 0} (bgp : Reconciler D) (rr : RoutesReconciler R W) where
  Runs-append :
      {ms ns : List Move} {s t u : System R W D}
      → Runs bgp rr s ms t
      → Runs bgp rr t ns u
      → Runs bgp rr s (ms ++ ns) u
  Runs-append stay q = q
  Runs-append (next step r) q = next step (Runs-append r q)

  abbrev Running : System R W D → Type 0
  Running s = (s.bgp_loop_runs ≡ true) × (s.updater_runs ≡ true)

  -- Some moves from `s`, as many as `n`, to a state like this.
  abbrev pub Within : ℕ → System R W D → (System R W D → Type 0) → Type 0
  Within n s P = (ms : List Move) × (t : System R W D) × Runs bgp rr s ms t × (length ms ≡ n) × P t

  drain_bgp :
      (xs : List (List NetworkOverlay)) (s : System R W D)
      → s.bgp_snapshots.buffer ≡ xs
      → Running s
      → Within (length xs) s λ t.
        Running t
        × (t.bgp_snapshots.buffer ≡ [])
        × (t.updater_snapshots ≡ s.updater_snapshots)
        × (t.bgp_events ≡ s.bgp_events)
  unfolding bgp_round
  drain_bgp [] s h k = ([], s, stay, refl, (k, h, refl, refl))
  drain_bgp (x ∷ xs) s h k =
      let (first, rest) = ready_first s.bgp_snapshots h in
      let (ms, t, r, n, q) =
        drain_bgp xs (bgp_round bgp rr x (record s { bgp_snapshots = taken s.bgp_snapshots })) rest
          k in
      (bgp_turn x ∷ ms, t, next (takes_bgp k.0 first) r, omega (arith, n), q)

  drain_updater :
      (xs : List (List NetworkOverlay)) (s : System R W D)
      → s.updater_snapshots.buffer ≡ xs
      → Running s
      → Within (length xs) s λ t.
        Running t
        × (t.bgp_snapshots ≡ s.bgp_snapshots)
        × (t.updater_snapshots.buffer ≡ [])
        × (t.bgp_events ≡ s.bgp_events)
  unfolding received updater_round
  drain_updater [] s h k = ([], s, stay, refl, (k, refl, h, refl))
  drain_updater (x ∷ xs) s h k =
      let (first, rest) = ready_first s.updater_snapshots h in
      let (ms, t, r, n, q) =
        drain_updater xs (updater_round bgp rr (snapshot x) (received bgp rr (snapshot x) s)) rest
          (k.0, refl) in
      (
        updater_turn (snapshot x) ∷ ms,
        t,
        next (takes_updater k.1 (offers_snapshot first)) r,
        omega (arith, n),
        q,
      )

  drain_events :
      (xs : List RouteEvent) (s : System R W D)
      → s.bgp_events.buffer ≡ xs
      → Running s
      → Within (length xs) s λ t.
        Running t
        × (t.bgp_snapshots ≡ s.bgp_snapshots)
        × (t.updater_snapshots ≡ s.updater_snapshots)
        × (t.bgp_events.buffer ≡ [])
  unfolding received updater_round
  drain_events [] s h k = ([], s, stay, refl, (k, refl, refl, h))
  drain_events (x ∷ xs) s h k =
      let (first, rest) = ready_first s.bgp_events h in
      let (ms, t, r, n, q) =
        drain_events xs (updater_round bgp rr (bgp_event x) (received bgp rr (bgp_event x) s)) rest
          (k.0, refl) in
      (
        updater_turn (bgp_event x) ∷ ms,
        t,
        next (takes_updater k.1 (offers_event first)) r,
        omega (arith, n),
        q,
      )

  -- From any state of an agent in which both loops run, the loops can receive all that waits in the
  -- three channels, one message with each move and with no other move, and both still run.
  pub drains :
      (s : System R W D)
      → s.bgp_loop_runs ≡ true
      → s.updater_runs ≡ true
      → Within
          (length s.bgp_snapshots.buffer
            + (length s.updater_snapshots.buffer + length s.bgp_events.buffer))
          s
          λ t.
            (t.bgp_snapshots.buffer ≡ [])
            × (t.updater_snapshots.buffer ≡ [])
            × (t.bgp_events.buffer ≡ [])
            × (t.bgp_loop_runs ≡ true)
            × (t.updater_runs ≡ true)
  drains s h k =
      let (ms, t, r, n, (runs, a, b, c)) = drain_bgp s.bgp_snapshots.buffer s refl (h, k) in
      let (ms', t', r', n', (runs', a', b', c')) =
        drain_updater t.updater_snapshots.buffer t refl runs in
      let (ms'', t'', r'', n'', (runs'', a'', b'', c'')) =
        drain_events t'.bgp_events.buffer t' refl runs' in
      (
        ms ++ (ms' ++ ms''),
        t'',
        Runs-append r (Runs-append r' r''),
        omega (
          arith,
          length-append ms (ms' ++ ms''),
          length-append ms' ms'',
          n,
          n',
          n'',
          ap (λ c. length c.buffer) b,
          ap (λ c. length c.buffer) c',
          ap (λ c. length c.buffer) c,
        ),
        (ap Chan.buffer (a'' ∙ a') ∙ a, ap Chan.buffer b'' ∙ b', c'', runs''.0, runs''.1),
      )
