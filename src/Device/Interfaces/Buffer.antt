-- ===== src/Device/Interfaces/Buffer.antt =====
-- What is reported of an interface, and what of the buffer.
use onvif_srvd_cmake.Prelude.{
  ℕ, ◌≤◌, Text, pos, Option, none, some, true, ◌≡◌, refl, Option-cases, inl, inr,
}
use onvif_srvd_cmake.Prelude.Substring.{take}
use onvif_srvd_cmake.Kernel.{Kernel, siocgifaddr}
use onvif_srvd_cmake.Eth.{EthDevParam, is_open, ether}
use onvif_srvd_cmake.Eth.Address.{ioctl_get, get_ip_text, with_payload}
use onvif_srvd_cmake.Eth.Address.Prefix.{get_mask_prefix_total}
use onvif_srvd_cmake.Eth.Hardware.{mac_text, arphrd_ether, ioctl_hwaddr, get_hwaddr_text}
use onvif_srvd_cmake.Context.Servers.{Junk, contents}
use onvif_srvd_cmake.Device.Interfaces.{network_interface}

-- The address that the kernel has for an interface, as text.
abbrev pub ip_answer : (k : Kernel) → Option ℕ → Option Text
ip_answer k none = none
ip_answer k (some a) = k.inet_ntop a

module _ (k : Kernel) (junk : Junk) (w : k.World) (d : EthDevParam) where
  module _ (sa_data : Text) (o : is_open d ≡ true)
      (e : ioctl_hwaddr k d w ≡ some (arphrd_ether, sa_data)) where
    read_hw :
        (old : Text)
        → get_hwaddr_text k (some old) d w
          ≡ (pos 0, some (mac_text (take 6 sa_data)), with_payload (ether arphrd_ether sa_data) d)
    unfolding get_hwaddr_text
    read_hw old = simp (o, e)

    read_ip :
        (old : Text)
        → contents old (get_ip_text k (some old) (with_payload (ether arphrd_ether sa_data) d) w).1
          ≡ contents old (ip_answer k (ioctl_get k siocgifaddr d w))
    unfolding get_ip_text
    read_ip old = elim (Option-cases (ioctl_get k siocgifaddr d w)) [
      | inl silent ↦ simp (o, silent)
      | inr (a, answered) ↦ elim (Option-cases (k.inet_ntop a)) [
        | inl bad ↦ simp (o, answered, bad)
        | inr (t, good) ↦ simp (o, answered, good)
      ]
    ]

    -- An open Ethernet interface is reported with its hardware address and a prefix length of at
    -- most 32. Its IP is the one that the kernel has; where the kernel has none, the hardware address
    -- is reported in its place.
    pub network_interface-address :
        ((network_interface k junk w d).0.hw_address ≡ mac_text (take 6 sa_data))
        × ((network_interface k junk w d).0.address
            ≡ contents (mac_text (take 6 sa_data)) (ip_answer k (ioctl_get k siocgifaddr d w)))
        × ((n : ℕ) × ((network_interface k junk w d).0.prefix_length ≡ some n) × (n ≤ 32))
    unfolding network_interface
    network_interface-address = (
      rw (read_hw junk.text) refl,
      rw (read_hw junk.text) (read_ip (mac_text (take 6 sa_data))),
      get_mask_prefix_total k junk.mask _ w,
    )
