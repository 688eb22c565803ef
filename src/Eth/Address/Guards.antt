-- ===== src/Eth/Address/Guards.antt =====
-- What the functions of an interface do that is not open.
use onvif_srvd_cmake.Prelude.{ℕ, Text, some, false, ◌≡◌, minus_one}
use onvif_srvd_cmake.Kernel.{Kernel}
use onvif_srvd_cmake.Eth.{EthDevParam, is_open}
use onvif_srvd_cmake.Eth.Address.{
  set_ip_text, set_ip, get_ip_text, get_ip, set_mask_text, set_mask, get_mask_text, get_mask,
}
use onvif_srvd_cmake.Eth.Gateway.{set_gateway, set_gateway_text, get_gateway, get_gateway_text}

module _ (k : Kernel) (d : EthDevParam) (w : k.World) (closed : is_open d ≡ false) where
  -- On an interface that is not open every function that sets or gets its IP, its mask or the gateway
  -- returns -1. A setter then changes neither the object nor the world, and a getter leaves the
  -- buffer and the object as they were.
  pub operations_closed :
      (s : Text) (a : ℕ)
      → ((set_ip_text k (some s) d w ≡ (minus_one, d, w))
          × (set_ip k a d w ≡ (minus_one, d, w))
          × (set_mask_text k (some s) d w ≡ (minus_one, d, w))
          × (set_mask k a d w ≡ (minus_one, d, w))
          × (set_gateway_text k (some s) d w ≡ some (minus_one, w))
          × (set_gateway k a d w ≡ some (minus_one, w)))
        × (get_ip_text k (some s) d w ≡ (minus_one, some s, d))
        × (get_ip k (some a) d w ≡ (minus_one, some a, d))
        × (get_mask_text k (some s) d w ≡ (minus_one, some s, d))
        × (get_mask k (some a) d w ≡ (minus_one, some a, d))
        × (get_gateway k (some a) d w ≡ (minus_one, some a))
        × (get_gateway_text k (some s) a d w ≡ (minus_one, some s))
  unfolding set_ip_text set_ip set_mask_text set_mask set_gateway_text set_gateway get_ip_text
      get_ip get_mask_text get_mask get_gateway get_gateway_text
  operations_closed s a = (
    (rw closed, rw closed, rw closed, rw closed, rw closed, rw closed),
    rw closed,
    rw closed,
    rw closed,
    rw closed,
    rw closed,
    rw closed,
  )
