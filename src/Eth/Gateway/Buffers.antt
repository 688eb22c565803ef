-- ===== src/Eth/Gateway/Buffers.antt =====
-- The buffer of the route command.
use onvif_srvd_cmake.Prelude.{
  ℕ, ◌+◌, ◌≤◌, ◌<◌, Text, none, some, true, ◌≡◌, ◌≢◌, ◌↔◌, length, length-append, arith, ◌++◌,
  bytes,
}
use onvif_srvd_cmake.Kernel.{Kernel}
use onvif_srvd_cmake.Eth.{EthDevParam, is_open, dev_name}
use onvif_srvd_cmake.Eth.Lifecycle.{IsValid}
use onvif_srvd_cmake.Eth.Gateway.{route_command, set_gateway, set_gateway_text}

length-route_command :
    (gateway name : Text) → length (route_command gateway name) ≡ 11 + length gateway + length name
unfolding route_command bytes
length-route_command gateway name = omega (arith, length-append gateway (bytes " " ++ name))

module _ (k : Kernel) (d : EthDevParam) (w : k.World) where
  -- On an interface whose name fits in its request an address as inet_ntoa prints it, 15 characters at
  -- most, does not overflow the buffer.
  pub set_gateway-fits :
      (gateway : ℕ)
      → IsValid d
      → length (k.inet_ntoa gateway) ≤ 15
      → set_gateway k gateway d w ≢ none
  unfolding set_gateway
  set_gateway-fits gateway v short =
      ground (arith, length-route_command (k.inet_ntoa gateway) (dev_name d), v.fits)

  -- On an open interface a gateway given as text overflows the buffer exactly when it and the name of the interface
  -- have more than 52 characters together.
  pub set_gateway_text-overflow_iff :
      (gateway : Text)
      → is_open d ≡ true
      → (set_gateway_text k (some gateway) d w ≡ none) ↔ (52 < length gateway + length (dev_name d))
  unfolding set_gateway_text
  set_gateway_text-overflow_iff gateway o =
      ground (arith, length-route_command gateway (dev_name d))
