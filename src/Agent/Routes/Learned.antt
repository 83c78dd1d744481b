-- ===== src/Agent/Routes/Learned.antt =====
-- apps/agent/internal/reconcilers/routes: the routes learned over BGP (`learned`), which both
-- reconcilers keep in the same way.
use pontifex.Base.{
  String, List, [], ◌∷◌, Option, none, some, ◌≡◌, refl, ap, ◌∙◌, arith, ◌==◌, comparable_string,
  if◌then◌else◌,
}
use pontifex.GoMap.{GoMap, get, put, delete}
use pontifex.GoMap.Laws.{get-put, get-delete}
use pontifex.Agent.Bgp.{Route, RouteEvent, route_added, route_withdrawn}

-- `ApplyEvent`
unfoldable pub apply_event : RouteEvent → GoMap String Route → GoMap String Route
apply_event ev learned = elim ev.type [
  | route_withdrawn ↦ delete ev.route.prefix learned
  | route_added ↦ put ev.route.prefix ev.route learned
]

abbrev pub apply_events : List RouteEvent → GoMap String Route → GoMap String Route
apply_events [] learned = learned
apply_events (ev ∷ evs) learned = apply_events evs (apply_event ev learned)

-- What an event says of its prefix.
abbrev pub announced : RouteEvent → Option Route
announced ev = elim ev.type [ route_withdrawn ↦ none | route_added ↦ some ev.route ]

-- What the last of the events on the prefix `p` says of it, and `old` if there is none.
abbrev pub last_announced : String → List RouteEvent → Option Route → Option Route
last_announced p [] old = old
last_announced p (ev ∷ evs) old =
    last_announced p evs (if ev.route.prefix == p then announced ev else old)

get-apply_event :
    (p : String) (ev : RouteEvent) (learned : GoMap String Route)
    → get p (apply_event ev learned)
      ≡ (if ev.route.prefix == p then announced ev else get p learned)
unfolding apply_event
get-apply_event p ev learned = ground (
  arith,
  get-put ev.route.prefix p ev.route learned,
  get-delete ev.route.prefix p learned,
  comparable_string.equal_iff ev.route.prefix p,
)

-- A prefix is learned as the last event on it says.
pub get-apply_events :
    (p : String) (evs : List RouteEvent) (learned : GoMap String Route)
    → get p (apply_events evs learned) ≡ last_announced p evs (get p learned)
get-apply_events p [] learned = refl
get-apply_events p (ev ∷ evs) learned =
    get-apply_events p evs (apply_event ev learned)
    ∙ ap (last_announced p evs) (get-apply_event p ev learned)
