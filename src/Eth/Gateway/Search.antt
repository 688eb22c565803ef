-- ===== src/Eth/Gateway/Search.antt =====
-- Finding the gateway of an interface in /proc/net/route.
use onvif_srvd_cmake.Prelude.{
  ℕ, ◌%◌, ◌^◌, Text, pos, none, some, true, false, List, [], ◌∷◌, ◌++◌, ◌≡◌, ◌↔◌, arith, All,
  str_eq, str_eq_iff, ap, inl, inr, Bool-cases,
}
use onvif_srvd_cmake.Kernel.{Kernel, RouteLine, lines}
use onvif_srvd_cmake.Eth.{EthDevParam, is_open, dev_name}
use onvif_srvd_cmake.Eth.Gateway.{scan_routes, get_gateway}

-- A line with all its fields, for another interface.
abbrev pub IsOther : Text → RouteLine → Type 0
IsOther name none = ⊥
IsOther name (some (devname, g)) = str_eq devname name ≡ false

-- The gateway `g` stands in the first line for the interface, behind well-formed lines only.
abbrev pub IsGateway : Text → List RouteLine → ℕ → Type 0
IsGateway name rows g =
    (before after : List RouteLine) × (v : ℕ) × (rows ≡ before ++ (some (name, v) ∷ after))
    × All (IsOther name) before
    × (v % 2 ^ 32 ≡ g)

scan-IsGateway :
    (name : Text) (rows : List RouteLine) (g : ℕ)
    → scan_routes name rows ≡ some g
    → IsGateway name rows g
unfolding scan_routes
scan-IsGateway name [] g h = cc
scan-IsGateway name (none ∷ rows) g h = cc
scan-IsGateway name (some (dev, v) ∷ rows) g h = elim (Bool-cases (str_eq dev name)) [
  | inl same ↦
      ([], rows, v, ap (λ n. some (n, v) ∷ rows) ((str_eq_iff dev name).0 same), tt, ground arith)
  | inr other ↦
      let (before, after, u, e, a, m) = scan-IsGateway name rows g (ground arith) in
      (some (dev, v) ∷ before, after, u, ap (λ r. some (dev, v) ∷ r) e, (other, a), m)
]

scan_gateway :
    (name : Text) (before after : List RouteLine) (v : ℕ)
    → All (IsOther name) before
    → scan_routes name (before ++ (some (name, v) ∷ after)) ≡ some (v % 2 ^ 32)
unfolding scan_routes
scan_gateway name [] after v h = ground (arith, str_eq_iff name name)
scan_gateway name (none ∷ before) after v h = elim h.0 [ ]
scan_gateway name (some (dev, u) ∷ before) after v (o, h) =
    rw o (scan_gateway name before after v h)

-- On an open interface, with a route file that has its first line, get_gateway returns 0 with `g` exactly when `g` is in the first line of
-- the interface and every line before it has its 11 fields.
pub get_gateway-IsGateway_iff :
    (k : Kernel) (old g : ℕ) (d : EthDevParam) (w : k.World) (rows : List RouteLine)
    → is_open d ≡ true
    → k.routes w ≡ lines rows
    → (get_gateway k (some old) d w ≡ (pos 0, some g)) ↔ IsGateway (dev_name d) rows g
unfolding get_gateway
get_gateway-IsGateway_iff k old g d w rows o r = (
  λ e. scan-IsGateway (dev_name d) rows g (ground arith),
  λ (before, after, v, e, a, m).
      rw (o, r, e, get_gateway) (rw (scan_gateway (dev_name d) before after v a) (ground arith)),
)
