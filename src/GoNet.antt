-- ===== src/GoNet.antt =====
-- The parts of Go's package `net` that the program calls: `SplitHostPort` and `ParseIP`. Of the
-- first the program uses the host and whether there is an error, of the second whether the result
-- is nil. Go indexes bytes; the bytes tested for here stand for themselves in UTF-8.
use Prim.Native.Char.{Char, code}
use pontifex.Base.{
  ℕ, zero, suc, ◌+◌, ◌*◌, ◌-◌, String, Bool, true, false, not, ◌&&◌, ◌||◌, Option, none, some, ltb,
  leb, nat_equal, if◌then◌else◌,
}

abbrev pub is_char : ℕ → Char → Bool
is_char n c = nat_equal (code c) n

abbrev pub is_digit : Char → Bool
is_digit c = leb b'0' (code c) && leb (code c) b'9'

abbrev pub is_hex : Char → Bool
is_hex c =
    is_digit c
    || (leb b'a' (code c) && leb (code c) b'f')
    || (leb b'A' (code c) && leb (code c) b'F')

-- `strings.IndexByte(s, c) >= 0`
unfoldable pub contains_char : ℕ → String → Bool
contains_char n String.[] = false
contains_char n (String.◌∷◌ c s) = is_char n c || contains_char n s

-- The text before and behind the last `c`.
unfoldable pub split_last : ℕ → String → Option (String × String)
split_last n String.[] = none
split_last n (String.◌∷◌ c s) = elim (split_last n s) [
  | some (before, behind) ↦ some (String.◌∷◌ c before, behind)
  | none ↦ if is_char n c then some ("", s) else none
]

-- `h` of `h]`, with no other bracket in it.
unfoldable pub unbracket : String → Option String
unfolding contains_char
unbracket s = elim (split_last b']' s) [
  | none ↦ none
  | some (h, String.[]) ↦ if contains_char b']' h || contains_char b'[' h then none else some h
  | some (h, String.◌∷◌ c r) ↦ none
]

has_bracket : String → Bool
unfolding contains_char
has_bracket s = contains_char b'[' s || contains_char b']' s

unfoldable pub host_of : String → String → Option String
unfolding unbracket has_bracket
host_of String.[] port = if has_bracket port then none else some ""
host_of (String.◌∷◌ c h) port =
    if has_bracket port
    then none
    else if is_char b'[' c
    then unbracket h
    else if contains_char b':' (String.◌∷◌ c h) || has_bracket (String.◌∷◌ c h)
    then none
    else some (String.◌∷◌ c h)

-- `host, _, err := net.SplitHostPort(s)`, where `none` is a non-nil error.
unfoldable pub split_host_port : String → Option String
unfolding split_last host_of
split_host_port s = elim (split_last b':' s) [ none ↦ none | some (host, port) ↦ host_of host port ]

-- The octets of an IPv4 address: `dots` so far, and the value and the digits of this octet.
unfoldable pub ipv4_from : ℕ → ℕ → ℕ → String → Bool
ipv4_from dots val digits String.[] = nat_equal dots 3 && not (nat_equal digits 0)
ipv4_from dots val digits (String.◌∷◌ c s) =
    let v : ℕ = val * 10 + (code c - b'0') in
    let next = ipv4_from dots v (digits + 1) s in
    let octet = ipv4_from (dots + 1) 0 0 s in
    if is_digit c
    then (if (nat_equal digits 1 && nat_equal val 0) || ltb 255 v then false else next)
    else if is_char b'.' c
    then (if nat_equal digits 0 || nat_equal dots 3 then false else octet)
    else false

abbrev is_ipv4 : String → Bool
is_ipv4 s = ipv4_from 0 0 0 s

-- The hexadecimal digits at the front, which are `n` and at most 4, and what follows them.
unfoldable pub hex_run : ℕ → String → Option (ℕ × String)
hex_run n String.[] = some (n, "")
hex_run n (String.◌∷◌ c s) =
    let rest = hex_run (n + 1) s in
    if is_hex c then (if ltb 3 n then none else rest) else some (n, String.◌∷◌ c s)

-- The groups of an IPv6 address: how many of the eight are left, and whether `::` was seen.
unfoldable pub ipv6_from : ℕ → Bool → String → Bool
unfolding hex_run ipv4_from
ipv6_from zero ellipsis s = false
ipv6_from (suc left) ellipsis s = elim (hex_run 0 s) [
  | none ↦ false
  | some (zero, rest) ↦ false
  | some (suc n, String.[]) ↦ if nat_equal left 0 then not ellipsis else ellipsis
  | some (suc n, String.◌∷◌ c String.[]) ↦ false
  | some (suc n, String.◌∷◌ c (String.◌∷◌ d t)) ↦
      let plain = ipv6_from left ellipsis (String.◌∷◌ d t) in
      let elided = ipv6_from left true t in
      if is_char b'.' c
      then is_ipv4 s && (if ellipsis then ltb 1 left else nat_equal left 1)
      else if not (is_char b':' c)
      then false
      else if is_char b':' d
      then (if ellipsis
          then false
          else elim t [ String.[] ↦ not (nat_equal left 0) | String.◌∷◌ _ _ ↦ elided ])
      else plain
]

unfoldable pub is_ipv6 : String → Bool
unfolding ipv6_from
is_ipv6 (String.◌∷◌ c (String.◌∷◌ d String.[])) = is_char b':' c && is_char b':' d
is_ipv6 (String.◌∷◌ c (String.◌∷◌ d s)) =
    if is_char b':' c && is_char b':' d
    then ipv6_from 8 true s
    else ipv6_from 8 false (String.◌∷◌ c (String.◌∷◌ d s))
is_ipv6 s = ipv6_from 8 false s

-- Which of the two notations the first `.` or `:` calls for.
unfoldable pub dotted : String → Option Bool
dotted String.[] = none
dotted (String.◌∷◌ c s) =
    if is_char b'.' c
    then some true
    else if is_char b':' c
    then some false
    else if is_char b'%' c
    then none
    else dotted s

-- `net.ParseIP(s) != nil`; an address with a zone is refused.
unfoldable pub is_ip : String → Bool
unfolding dotted is_ipv6 ipv4_from contains_char
is_ip s = elim (dotted s) [
  | none ↦ false
  | some true ↦ is_ipv4 s
  | some false ↦ not (contains_char b'%' s) && is_ipv6 s
]
