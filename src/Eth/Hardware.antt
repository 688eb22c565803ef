-- ===== src/Eth/Hardware.antt =====
-- The hardware address of an interface: both set_hwaddr and both get_hwaddr of
-- src/eth_dev_param.cpp. A buffer that sprintf would overflow gives none.
pub mod Texts
pub mod RoundTrip
use onvif_srvd_cmake.Prelude.{
  map, length, c_str, ◌||◌, ℕ, ◌+◌, ◌/◌, ◌%◌, ◌==◌, Text, ℤ, pos, Option, none, some, Bool, true,
  false, not, List, [], ◌∷◌, ◌++◌, bytes, ltb, minus_one, if◌then◌else◌,
}
use onvif_srvd_cmake.Prelude.Substring.{take, drop}
use onvif_srvd_cmake.Kernel.{Kernel}
use onvif_srvd_cmake.Eth.{Payload, ether, EthDevParam, is_open, dev_name}
use onvif_srvd_cmake.Eth.Address.{with_payload}
use onvif_srvd_cmake.Eth.Gateway.{sprintf, run_shell_cmd}

-- ARPHRD_ETHER
abbrev pub arphrd_ether : ℕ
arphrd_ether = 1

abbrev pub hex_digit : ℕ → ℕ
hex_digit n = if ltb n 10 then b'0' + n else 87 + n

-- "%02x" on a byte.
abbrev pub hex_byte : ℕ → Text
hex_byte b = hex_digit (b / 16) ∷ hex_digit (b % 16) ∷ []

-- "%02x:%02x:…", one field for each byte.
unfoldable pub mac_text : Text → Text
mac_text [] = []
mac_text (b ∷ []) = hex_byte b
mac_text (b ∷ c ∷ bs) = hex_byte b ++ (b':' ∷ mac_text (c ∷ bs))

module _ (k : Kernel) where
  open k use {World}

  abbrev pub ioctl_hwaddr : EthDevParam → World → Option (ℕ × Text)
  ioctl_hwaddr d w = elim d.sd [ none ↦ none | some fd ↦ k.get_hwaddr fd (dev_name d) w ]

  -- get_hwaddr(uint8_t *)
  unfoldable pub get_hwaddr : Option Text → EthDevParam → World → ℤ × Option Text × EthDevParam
  get_hwaddr none d w = (minus_one, none, d)
  get_hwaddr (some old) d w =
      if not (is_open d) then (minus_one, some old, d) else elim (ioctl_hwaddr d w) [
        | none ↦ (minus_one, some old, d)
        | some (family, sa_data) ↦
            let d' = with_payload (ether family sa_data) d in
            if not (family == arphrd_ether)
            then (minus_one, some old, d')
            else (pos 0, some (take 6 sa_data), d')
      ]

  -- get_hwaddr(char *)
  unfoldable pub get_hwaddr_text : Option Text → EthDevParam → World → ℤ × Option Text × EthDevParam
  unfolding mac_text
  get_hwaddr_text none d w = (minus_one, none, d)
  get_hwaddr_text (some old) d w =
      if not (is_open d) then (minus_one, some old, d) else elim (ioctl_hwaddr d w) [
        | none ↦ (minus_one, some old, d)
        | some (family, sa_data) ↦
            let d' = with_payload (ether family sa_data) d in
            if not (family == arphrd_ether)
            then (minus_one, some old, d')
            else (pos 0, some (mac_text (take 6 sa_data)), d')
      ]

  abbrev pub ioctl_set_hwaddr : Text → EthDevParam → World → ℤ × World
  ioctl_set_hwaddr mac d w = elim d.sd [
    | none ↦ (minus_one, w)
    | some fd ↦ k.set_hwaddr fd (dev_name d) mac w
  ]

  -- The calls of set_hwaddr(const uint8_t *), with the commands that bring the interface down and up.
  abbrev pub down_and_up : Text → Text → Text → EthDevParam → World → ℤ × EthDevParam × World
  down_and_up down up mac d w =
      let (_, w1) = run_shell_cmd k (some down) w in
      let (ret, w2) = ioctl_set_hwaddr mac d w1 in
      let (_, w3) = run_shell_cmd k (some up) w2 in
      (ret, with_payload (ether arphrd_ether mac) d, w3)

  -- set_hwaddr(const uint8_t *); both commands are written to `char cmd[32]`.
  unfoldable pub set_hwaddr : Option Text → EthDevParam → World → Option (ℤ × EthDevParam × World)
  set_hwaddr none d w = some (minus_one, d, w)
  set_hwaddr (some hwaddr) d w =
      if not (is_open d)
      then some (minus_one, d, w)
      else elim (sprintf 32 (bytes "ifconfig " ++ (dev_name d ++ bytes " down"))) [
        | none ↦ none
        | some down ↦ elim (sprintf 32 (bytes "ifconfig " ++ (dev_name d ++ bytes " up"))) [
          | none ↦ none
          | some up ↦ some (down_and_up down up (take 6 hwaddr) d w)
        ]
      ]

  -- The six ints of set_hwaddr(const char *): those that sscanf reads, and `junk` for the rest.
  abbrev pub scanned : (Text → List ℕ) → List ℕ → Text → List ℕ
  scanned scan junk t = take 6 (scan t ++ drop (length (scan t)) junk)

  -- set_hwaddr(const char *). `scan` gives the ints, as unsigned numbers, that sscanf reads with
  -- "%x:%x:%x:%x:%x:%x"; their low bytes are stored.
  unfoldable pub set_hwaddr_text :
      (Text → List ℕ) → List ℕ → Option Text → EthDevParam → World → ℤ × EthDevParam × World
  set_hwaddr_text scan junk none d w = (minus_one, d, w)
  set_hwaddr_text scan junk (some t) d w =
      let mac : Text = map (λ n. n % 256) (scanned scan junk t) in
      let (ret, w') = ioctl_set_hwaddr mac d w in
      if not (is_open d) || not (length (c_str t) == 17)
      then (minus_one, d, w)
      else (ret, with_payload (ether arphrd_ether mac) d, w')
