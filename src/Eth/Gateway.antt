-- ===== src/Eth/Gateway.antt =====
-- The default gateway of an interface: set by a shell command, got from /proc/net/route.
pub mod Buffers
pub mod Search
use onvif_srvd_cmake.Prelude.{
  ℕ, zero, ◌%◌, ◌^◌, Text, ℤ, pos, Option, none, some, Bool, true, false, not, List, [], ◌∷◌, ◌++◌,
  length, bytes, ltb, leb, ltb_ℤ, str_eq, minus_one, if◌then◌else◌,
}
use onvif_srvd_cmake.Kernel.{Kernel, RouteLine, RouteFile, missing, no_header, lines}
use onvif_srvd_cmake.Eth.{EthDevParam, is_open, dev_name}

-- sprintf into a buffer of `size` bytes: none where the text and its NUL do not fit, which is
-- undefined behaviour.
abbrev pub sprintf : ℕ → Text → Option Text
sprintf size t = if ltb (length t) size then some t else none

unfoldable pub route_command : Text → Text → Text
route_command gateway name = bytes "route add " ++ (gateway ++ (bytes " " ++ name))

-- `for` the lines of the file: the gateway in the first line with the name, unless a line before
-- it does not have the 11 fields.
unfoldable pub scan_routes : Text → List RouteLine → Option ℕ
scan_routes name [] = none
scan_routes name (none ∷ rest) = none
scan_routes name (some (devname, g) ∷ rest) =
    if str_eq devname name then some (g % 2 ^ 32) else scan_routes name rest

module _ (k : Kernel) where
  open k use {World}

  -- Eth_Dev_Param::run_shell_cmd
  unfoldable pub run_shell_cmd : Option Text → World → ℤ × World
  run_shell_cmd none w = (minus_one, w)
  run_shell_cmd (some cmd) w =
      let (ptr, w') = k.popen cmd w in
      let (ret, w'') = k.pclose w' in
      if not ptr
      then (minus_one, w')
      else if ltb_ℤ ret (pos 0)
      then (minus_one, w'')
      else (pos 0, w'')

  -- The command is written to `char cmd[64]` before it is run.
  abbrev pub add_route : Text → EthDevParam → World → Option (ℤ × World)
  add_route gateway d w = elim (sprintf 64 (route_command gateway (dev_name d))) [
    | none ↦ none
    | some cmd ↦ some (run_shell_cmd (some cmd) w)
  ]

  -- set_gateway(const char *)
  unfoldable pub set_gateway_text : Option Text → EthDevParam → World → Option (ℤ × World)
  set_gateway_text none d w = some (minus_one, w)
  set_gateway_text (some gateway) d w =
      if not (is_open d) then some (minus_one, w) else add_route gateway d w

  -- set_gateway(uint32_t)
  unfoldable pub set_gateway : ℕ → EthDevParam → World → Option (ℤ × World)
  set_gateway gateway d w =
      if not (is_open d) then some (minus_one, w) else add_route (k.inet_ntoa gateway) d w

  -- get_gateway(uint32_t *): the return value and the contents of the out parameter.
  unfoldable pub get_gateway : Option ℕ → EthDevParam → World → ℤ × Option ℕ
  unfolding scan_routes
  get_gateway none d w = (minus_one, none)
  get_gateway (some old) d w =
      if not (is_open d) then (minus_one, some old) else elim (k.routes w) [
        | missing ↦ (minus_one, some old)
        | no_header ↦ (minus_one, some old)
        | lines rows ↦ elim (scan_routes (dev_name d) rows) [
          | none ↦ (minus_one, some old)
          | some g ↦ (pos 0, some g)
        ]
      ]

  -- The part of get_gateway(char *) behind the call of the function above.
  unfoldable pub gateway_text : Text → ℤ × Option ℕ → ℤ × Option Text
  gateway_text old (pos zero, some g) = elim (k.inet_ntop g) [
    | none ↦ (minus_one, some old)
    | some t ↦ (pos 0, some t)
  ]
  gateway_text old _ = (minus_one, some old)

  -- get_gateway(char *); `junk` is what `tmp_gateway` holds before.
  unfoldable pub get_gateway_text : Option Text → ℕ → EthDevParam → World → ℤ × Option Text
  get_gateway_text none junk d w = (minus_one, none)
  get_gateway_text (some old) junk d w =
      if not (is_open d)
      then (minus_one, some old)
      else gateway_text old (get_gateway (some junk) d w)
