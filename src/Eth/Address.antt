-- ===== src/Eth/Address.antt =====
-- The addresses of an interface: the functions of src/eth_dev_param.cpp that set and get its IP
-- and its netmask, as text or as a number in network byte order.
pub mod Guards
pub mod Prefix
use onvif_srvd_cmake.Prelude.{
  ℕ, zero, suc, ◌+◌, ◌*◌, ◌/◌, ◌%◌, ◌^◌, ◌==◌, Text, ℤ, pos, Option, none, some, Bool, true, false,
  not, ◌||◌, minus_one, if◌then◌else◌, is_some,
}
use onvif_srvd_cmake.Kernel.{
  Kernel, AddrRequest, siocgifaddr, siocgifdstaddr, siocgifnetmask, SetRequest, siocsifaddr,
  siocsifnetmask,
}
use onvif_srvd_cmake.Eth.{Payload, inet, EthDevParam, is_open, dev_name}

abbrev pub with_payload : Payload → EthDevParam → EthDevParam
with_payload p d = record d { ifr = record { ifr_name = d.ifr.ifr_name; payload = p } }

module _ (k : Kernel) where
  open k use {World}

  -- ioctl on the socket of the object; on no socket it fails.
  abbrev pub ioctl_get : AddrRequest → EthDevParam → World → Option ℕ
  ioctl_get r d w = elim d.sd [ none ↦ none | some fd ↦ k.get_addr r fd (dev_name d) w ]

  abbrev pub ioctl_set : SetRequest → ℕ → EthDevParam → World → ℤ × World
  ioctl_set r a d w = elim d.sd [
    | none ↦ (minus_one, w)
    | some fd ↦ k.set_addr r fd (dev_name d) a w
  ]

  -- The body that the functions setting an address from a number share.
  unfoldable pub set_number : SetRequest → ℕ → EthDevParam → World → ℤ × EthDevParam × World
  set_number r a d w =
      if not (is_open d)
      then (minus_one, d, w)
      else (let (ret, w') = ioctl_set r a d w in (ret, with_payload (inet a) d, w'))

  -- The body that the functions setting an address from a text share: on a text that is no
  -- address the request keeps the address 0.
  unfoldable pub set_text : SetRequest → Option Text → EthDevParam → World → ℤ × EthDevParam × World
  set_text r none d w = (minus_one, d, w)
  set_text r (some s) d w = if not (is_open d) then (minus_one, d, w) else elim (k.inet_pton s) [
    | none ↦ (minus_one, with_payload (inet 0) d, w)
    | some a ↦ let (ret, w') = ioctl_set r a d w in (ret, with_payload (inet a) d, w')
  ]

  -- The body that the functions getting an address as a number share.
  unfoldable pub get_number :
      AddrRequest → Option ℕ → EthDevParam → World → ℤ × Option ℕ × EthDevParam
  get_number r none d w = (minus_one, none, d)
  get_number r (some old) d w =
      if not (is_open d) then (minus_one, some old, d) else elim (ioctl_get r d w) [
        | none ↦ (minus_one, some old, d)
        | some a ↦ (pos 0, some a, with_payload (inet a) d)
      ]

  -- The body that the functions getting an address as a text share.
  unfoldable pub get_text :
      AddrRequest → Option Text → EthDevParam → World → ℤ × Option Text × EthDevParam
  get_text r none d w = (minus_one, none, d)
  get_text r (some old) d w =
      if not (is_open d) then (minus_one, some old, d) else elim (ioctl_get r d w) [
        | none ↦ (minus_one, some old, d)
        | some a ↦ elim (k.inet_ntop a) [
          | none ↦ (minus_one, some old, with_payload (inet a) d)
          | some t ↦ (pos 0, some t, with_payload (inet a) d)
        ]
      ]

  unfoldable pub set_ip_text : Option Text → EthDevParam → World → ℤ × EthDevParam × World
  unfolding set_text
  set_ip_text = set_text siocsifaddr

  unfoldable pub set_ip : ℕ → EthDevParam → World → ℤ × EthDevParam × World
  unfolding set_number
  set_ip = set_number siocsifaddr

  unfoldable pub get_ip_text : Option Text → EthDevParam → World → ℤ × Option Text × EthDevParam
  unfolding get_text
  get_ip_text = get_text siocgifaddr

  -- The number is that of the request for the peer's address, as the source has it.
  unfoldable pub get_ip : Option ℕ → EthDevParam → World → ℤ × Option ℕ × EthDevParam
  unfolding get_number
  get_ip = get_number siocgifdstaddr

  unfoldable pub set_mask_text : Option Text → EthDevParam → World → ℤ × EthDevParam × World
  unfolding set_text
  set_mask_text = set_text siocsifnetmask

  unfoldable pub set_mask : ℕ → EthDevParam → World → ℤ × EthDevParam × World
  unfolding set_number
  set_mask = set_number siocsifnetmask

  unfoldable pub get_mask_text : Option Text → EthDevParam → World → ℤ × Option Text × EthDevParam
  unfolding get_text
  get_mask_text = get_text siocgifnetmask

  unfoldable pub get_mask : Option ℕ → EthDevParam → World → ℤ × Option ℕ × EthDevParam
  unfolding get_number
  get_mask = get_number siocgifnetmask

-- ntohl and htonl of a little-endian host.
unfoldable pub ntohl : ℕ → ℕ
ntohl x = x % 256 * 2 ^ 24 + x / 2 ^ 8 % 256 * 2 ^ 16 + x / 2 ^ 16 % 256 * 2 ^ 8 + x / 2 ^ 24 % 256

-- `while (mask != 0) { mask <<= 1; prefix++; }` on a uint32_t; none where the fuel runs out.
unfoldable pub prefix_loop : ℕ → ℕ → ℕ → Option ℕ
prefix_loop zero mask prefix = none
prefix_loop (suc fuel) mask prefix =
    let rest = prefix_loop fuel (mask * 2 % 2 ^ 32) (prefix + 1) in
    if mask == 0 then some prefix else rest

-- The mask as get_mask leaves it, where the variable held `old` before.
abbrev pub mask_or : ℕ → Option ℕ → ℕ
mask_or old none = old
mask_or old (some m) = m

module _ (k : Kernel) where
  open k use {World}

  unfoldable pub get_mask_prefix : ℕ → EthDevParam → World → Option ℕ × EthDevParam
  get_mask_prefix old d w =
      let (ret, mask, d') = get_mask k (some old) d w in
      (prefix_loop 33 (ntohl (mask_or old mask)) 0, d')
