-- ===== src/Device/Interfaces.antt =====
-- GetNetworkInterfaces of src/ServiceDevice.cpp. One buffer `tmp_buf` holds first the hardware
-- address and then the IP; what it and the mask hold before is `junk`.
pub mod Buffer
pub mod Bounds
use onvif_srvd_cmake.Prelude.{ℕ, Text, Option, some, Bool, true, List, [], ◌∷◌}
use onvif_srvd_cmake.Kernel.{Kernel}
use onvif_srvd_cmake.Eth.{EthDevParam, dev_name}
use onvif_srvd_cmake.Eth.Address.{get_ip_text, get_mask_prefix}
use onvif_srvd_cmake.Eth.Hardware.{get_hwaddr_text}
use onvif_srvd_cmake.Context.{ServiceContext}
use onvif_srvd_cmake.Context.Servers.{Junk, contents}
use onvif_srvd_cmake.Soap.{SoapStatus, soap_ok}

-- tt__NetworkInterface; the prefix length is none where the loop that counts it does not end.
pub record NetworkInterface : Type 0 where
  pub enabled : Bool
  pub name : Text
  pub hw_address : Text
  pub address : Text
  pub prefix_length : Option ℕ

module _ (k : Kernel) (junk : Junk) (w : k.World) where
  unfoldable pub network_interface : EthDevParam → NetworkInterface × EthDevParam
  network_interface d =
      let (_, hw, d1) = get_hwaddr_text k (some junk.text) d w in
      let hw_text : Text = contents junk.text hw in
      let (_, ip, d2) = get_ip_text k (some hw_text) d1 w in
      let (prefix, d3) = get_mask_prefix k junk.mask d2 w in
      (
        record {
          enabled = true;
          name = dev_name d;
          hw_address = hw_text;
          address = contents hw_text ip;
          prefix_length = prefix;
        },
        d3,
      )

  unfoldable pub interfaces_loop : List EthDevParam → List NetworkInterface × List EthDevParam
  unfolding network_interface
  interfaces_loop [] = ([], [])
  interfaces_loop (d ∷ ds) =
      let (n, d') = network_interface d in let (ns, ds') = interfaces_loop ds in (n ∷ ns, d' ∷ ds')

  unfoldable pub handle_get_network_interfaces :
      ServiceContext → SoapStatus × List NetworkInterface × ServiceContext
  unfolding interfaces_loop
  handle_get_network_interfaces c =
      let (ns, ds) = interfaces_loop c.eth_ifs in (soap_ok, ns, record c { eth_ifs = ds })
