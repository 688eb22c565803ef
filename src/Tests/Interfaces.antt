-- ===== src/Tests/Interfaces.antt =====
-- Runs of the network interfaces.
use onvif_srvd_cmake.Prelude.{
  ◌++◌, ℕ, ◌+◌, ◌<◌, ◌≤◌, Text, pos, none, some, [], ◌∷◌, ◌≡◌, ◌↔◌, refl, arith, bytes, length, All,
}
use onvif_srvd_cmake.Kernel.{Kernel, siocgifaddr}
use onvif_srvd_cmake.Eth.{ether, dev_name, open_dev}
use onvif_srvd_cmake.Eth.Lifecycle.{IsValid, IsOpening, open_dev-IsOpening}
use onvif_srvd_cmake.Eth.Address.{with_payload, get_mask, get_mask_prefix, ioctl_get}
use onvif_srvd_cmake.Eth.Address.Prefix.{netmask, get_mask_prefix_total, get_mask_prefix-netmask}
use onvif_srvd_cmake.Eth.Gateway.{set_gateway_text, get_gateway}
use onvif_srvd_cmake.Eth.Gateway.Buffers.{set_gateway_text-overflow_iff}
use onvif_srvd_cmake.Eth.Gateway.Search.{IsGateway, get_gateway-IsGateway_iff}
use onvif_srvd_cmake.Eth.Hardware.{
  mac_text, get_hwaddr_text, set_hwaddr_text, ioctl_set_hwaddr, arphrd_ether,
}
use onvif_srvd_cmake.Eth.Hardware.RoundTrip.{ReadsBytes, set_hwaddr_text-get_hwaddr_text}
use onvif_srvd_cmake.Eth.Hardware.Texts.{read_mac, read_byte}
use onvif_srvd_cmake.Device.Interfaces.{network_interface, handle_get_network_interfaces}
use onvif_srvd_cmake.Device.Interfaces.Bounds.{FitsBuffer, handle_get_network_interfaces-FitsBuffer}
use onvif_srvd_cmake.Device.Interfaces.Buffer.{ip_answer, network_interface-address}
use onvif_srvd_cmake.Prelude.Substring.{take}
use onvif_srvd_cmake.Context.Servers.{contents, get_server_ip_from_client_ip}
use onvif_srvd_cmake.Tests.Fixtures.{junk, toy, eth0, closed_eth, context}

open_dev-IsOpening_example :
    IsOpening toy (some (dev_name eth0)) (open_dev toy (some (dev_name eth0)) closed_eth 3)
open_dev-IsOpening_example = open_dev-IsOpening toy (some (dev_name eth0)) closed_eth 3

get_mask_prefix_total_example : (r : ℕ) × ((get_mask_prefix toy 1 eth0 3).0 ≡ some r) × (r ≤ 32)
get_mask_prefix_total_example = get_mask_prefix_total toy 1 eth0 3

-- The interface is closed, so the length is that of the mask that the variable happens to hold.
get_mask_prefix-netmask_example : (get_mask_prefix toy (netmask 11) closed_eth 3).0 ≡ some 11
unfolding get_mask
get_mask_prefix-netmask_example =
    get_mask_prefix-netmask toy (netmask 11) 11 closed_eth 3 (omega arith) refl

get_gateway-IsGateway_iff_example :
    (get_gateway toy (some 0) eth0 3 ≡ (pos 0, some 7))
    ↔ IsGateway (dev_name eth0) (some (bytes "lo", 0) ∷ some (bytes "eth0", 7) ∷ none ∷ []) 7
unfolding bytes
get_gateway-IsGateway_iff_example =
    get_gateway-IsGateway_iff toy 0 7 eth0 3
      (some (bytes "lo", 0) ∷ some (bytes "eth0", 7) ∷ none ∷ []) refl refl

eth0-IsValid : IsValid eth0
unfolding bytes
eth0-IsValid = record { opened = ground arith; fits = omega arith }

-- A name of a host with 49 characters.
abbrev far : Text
far = bytes "gateway-of-the-third-floor.building-7.example.com"

set_gateway_text-overflow_iff_example :
    (set_gateway_text toy (some far) eth0 3 ≡ none) ↔ (52 < length far + length (dev_name eth0))
set_gateway_text-overflow_iff_example = set_gateway_text-overflow_iff toy eth0 3 far refl

-- A kernel that answers hardware addresses and no IP.
abbrev without_ip : Kernel
without_ip = record toy {
  get_hwaddr = λ fd name w. some (1, 0 ∷ 27 ∷ 33 ∷ 171 ∷ 5 ∷ 254 ∷ 0 ∷ 0 ∷ []);
  get_addr = λ r fd name w. none;
}

network_interface-address_example :
    ((network_interface without_ip junk 3 eth0).0.hw_address
      ≡ mac_text (take 6 (0 ∷ 27 ∷ 33 ∷ 171 ∷ 5 ∷ 254 ∷ 0 ∷ 0 ∷ [])))
    × ((network_interface without_ip junk 3 eth0).0.address
        ≡ contents
            (mac_text (take 6 (0 ∷ 27 ∷ 33 ∷ 171 ∷ 5 ∷ 254 ∷ 0 ∷ 0 ∷ [])))
            (ip_answer without_ip (ioctl_get without_ip siocgifaddr eth0 3)))
    × ((n : ℕ) × ((network_interface without_ip junk 3 eth0).0.prefix_length ≡ some n) × (n ≤ 32))
network_interface-address_example =
    network_interface-address without_ip junk 3 eth0 (0 ∷ 27 ∷ 33 ∷ 171 ∷ 5 ∷ 254 ∷ 0 ∷ 0 ∷ []) refl
      refl

toy_short : (a : ℕ) (t : Text) → toy.inet_ntop a ≡ some t → length t ≤ 15
unfolding bytes
toy_short a t h = ground (arith, h)

handle_get_network_interfaces-FitsBuffer_example :
    (length (get_server_ip_from_client_ip toy junk 7 3 context).0 < 16)
    × All FitsBuffer (handle_get_network_interfaces toy junk 3 context).1
handle_get_network_interfaces-FitsBuffer_example =
    handle_get_network_interfaces-FitsBuffer toy 3 toy_short junk 7 context (omega arith)

-- A reader of six bytes in lower case.
abbrev scan_six : Text → Text
scan_six (a ∷ b ∷ _ ∷ c ∷ d ∷ _ ∷ e ∷ f ∷ _ ∷ g ∷ h ∷ _ ∷ i ∷ j ∷ _ ∷ k ∷ l ∷ []) =
    read_mac (a ∷ b ∷ [])
    ++ (read_mac (c ∷ d ∷ [])
        ++ (read_mac (e ∷ f ∷ [])
            ++ (read_mac (g ∷ h ∷ []) ++ (read_mac (i ∷ j ∷ []) ++ read_mac (k ∷ l ∷ [])))))
scan_six _ = []

scan_six-ReadsBytes : ReadsBytes scan_six
unfolding mac_text
scan_six-ReadsBytes a b c d e f (h1, (h2, (h3, (h4, (h5, (h6, _)))))) =
    rw
      (
        read_byte a h1,
        read_byte b h2,
        read_byte c h3,
        read_byte d h4,
        read_byte e h5,
        read_byte f h6,
      )
      refl

set_hwaddr_text-get_hwaddr_text_example :
    let mac : Text = 0 ∷ 27 ∷ 33 ∷ 171 ∷ 5 ∷ 254 ∷ [] in
    let (ret, text, read) = get_hwaddr_text without_ip (some []) eth0 3 in
    (ret ≡ pos 0)
    × (set_hwaddr_text without_ip scan_six [] text read 3 ≡ (
      (ioctl_set_hwaddr without_ip mac eth0 3).0,
      with_payload (ether arphrd_ether mac) eth0,
      (ioctl_set_hwaddr without_ip mac eth0 3).1,
    ))
set_hwaddr_text-get_hwaddr_text_example =
    set_hwaddr_text-get_hwaddr_text without_ip eth0 3 scan_six [] [] 0 27 33 171 5 254 (0 ∷ 0 ∷ [])
      scan_six-ReadsBytes refl refl
      (omega arith, (omega arith, (omega arith, (omega arith, (omega arith, (omega arith, tt))))))
