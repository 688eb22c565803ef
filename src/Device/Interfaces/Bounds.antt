-- ===== src/Device/Interfaces/Bounds.antt =====
-- The texts that the getters write into the buffers of the handlers: char tmp_buf[20] of
-- GetNetworkInterfaces and char server_ip[INET_ADDRSTRLEN] of getServerIpFromClientIp.
use Prim.Native.Nat.{bit_and}
use onvif_srvd_cmake.Prelude.{
  ℕ, zero, suc, ◌*◌, ◌≤◌, ◌<◌, ◌==◌, Text, some, List, [], ◌∷◌, ◌≡◌, Option-cases, Bool-cases, inl,
  inr, length, arith, All, bytes,
}
use onvif_srvd_cmake.Prelude.Substring.{take}
use onvif_srvd_cmake.Kernel.{Kernel, siocgifaddr}
use onvif_srvd_cmake.Eth.{EthDevParam, is_open}
use onvif_srvd_cmake.Eth.Address.{ioctl_get, get_text, get_ip_text, get_ip, get_mask}
use onvif_srvd_cmake.Eth.Hardware.{mac_text, arphrd_ether, ioctl_hwaddr, get_hwaddr_text}
use onvif_srvd_cmake.Context.{ServiceContext}
use onvif_srvd_cmake.Context.Servers.{
  Junk, contents, server_loop, server_of, get_server_ip_from_client_ip,
}
use onvif_srvd_cmake.Device.Interfaces.{
  NetworkInterface, network_interface, interfaces_loop, handle_get_network_interfaces,
}

-- Both texts of an interface fit in the buffer with their NUL.
abbrev pub FitsBuffer : NetworkInterface → Type 0
FitsBuffer n = (length n.hw_address < 20) × (length n.address < 20)

length-mac_text : (bs : Text) → length (mac_text bs) ≤ 3 * length bs
unfolding mac_text
length-mac_text [] = omega arith
length-mac_text (b ∷ []) = omega arith
length-mac_text (b ∷ c ∷ bs) = omega (arith, length-mac_text (c ∷ bs))

length-take : (n : ℕ) (t : Text) → length (take n t) ≤ n
unfolding take
length-take zero t = omega arith
length-take (suc n) [] = omega arith
length-take (suc n) (b ∷ t) = omega (arith, length-take n t)

module _ (k : Kernel) (w : k.World)
    (short : (a : ℕ) (t : Text) → k.inet_ntop a ≡ some t → length t ≤ 15) where
  get_ip_text-fits :
      (size : ℕ) (old : Text) (d : EthDevParam)
      → 15 < size
      → length old < size
      → length (contents old (get_ip_text k (some old) d w).1) < size
  unfolding get_ip_text get_text
  get_ip_text-fits size old d h o = elim (Bool-cases (is_open d)) [
    | inr closed ↦ rw (closed, get_ip_text) o
    | inl opened ↦ elim (Option-cases (ioctl_get k siocgifaddr d w)) [
      | inl silent ↦ simp (opened, silent) o
      | inr (a, answered) ↦ elim (Option-cases (k.inet_ntop a)) [
        | inl bad ↦ simp (opened, answered, bad) o
        | inr (t, good) ↦ simp (opened, answered, good) (omega (arith, h, short a t good))
      ]
    ]
  ]

  get_hwaddr_text-fits :
      (old : Text) (d : EthDevParam)
      → length old < 20
      → length (contents old (get_hwaddr_text k (some old) d w).1) < 20
  unfolding get_hwaddr_text
  get_hwaddr_text-fits old d o = elim (Bool-cases (is_open d)) [
    | inr closed ↦ rw (closed, get_hwaddr_text) o
    | inl opened ↦ elim (Option-cases (ioctl_hwaddr k d w)) [
      | inl silent ↦ simp (opened, silent) o
      | inr ((family, sa_data), answered) ↦ elim (Bool-cases (family == arphrd_ether)) [
        | inr other ↦ simp (opened, answered, other) o
        | inl ether ↦
            simp (opened, answered, ether)
              (omega (arith, length-mac_text (take 6 sa_data), length-take 6 sa_data))
      ]
    ]
  ]

  module _ (junk : Junk) where
    interfaces_loop-FitsBuffer :
        (ds : List EthDevParam)
        → length junk.text < 20
        → All FitsBuffer (interfaces_loop k junk w ds).0
    unfolding interfaces_loop network_interface
    interfaces_loop-FitsBuffer [] o = tt
    interfaces_loop-FitsBuffer (d ∷ ds) o =
        let hw = get_hwaddr_text k (some junk.text) d w in
        let fits = get_hwaddr_text-fits junk.text d o in
        (
          (fits, get_ip_text-fits 20 (contents junk.text hw.1) hw.2 (omega arith) fits),
          interfaces_loop-FitsBuffer ds o,
        )

    server_loop-fits :
        (client : ℕ) (ds : List EthDevParam)
        → length junk.text < 16
        → length (server_loop k junk client w ds).0 < 16
    unfolding server_loop bytes
    server_loop-fits client [] o = omega arith
    server_loop-fits client (d ∷ ds) o =
        let d1 = get_ip k (some junk.ip) d w in
        let d2 = get_mask k (some junk.mask) d1.2 w in
        let if_mask : ℕ = contents junk.mask d2.1 in
        let here = bit_and (contents junk.ip d1.1) if_mask == bit_and client if_mask in
        elim (Bool-cases here) [
          | inl found ↦ rw found (get_ip_text-fits 16 junk.text d2.2 (omega arith) o)
          | inr other ↦ rw other (server_loop-fits client ds o)
        ]

    server_of-fits :
        (client : ℕ) (ds : List EthDevParam)
        → length junk.text < 16
        → length (server_of k junk client w ds).0 < 16
    unfolding server_of
    server_of-fits client [] o = server_loop-fits client [] o
    server_of-fits client (d ∷ []) o = get_ip_text-fits 16 junk.text d (omega arith) o
    server_of-fits client (d ∷ e ∷ ds) o = server_loop-fits client (d ∷ e ∷ ds) o

    -- Where inet_ntop writes at most 15 characters, as it does for AF_INET, and a buffer that is not
    -- written holds as many at most, no text overflows its buffer: the server's address has at most
    -- 15 characters for any client, and every hardware address and every IP that GetNetworkInterfaces
    -- reports at most 19, whatever the context and whether or not the interfaces answer.
    pub handle_get_network_interfaces-FitsBuffer :
        (client : ℕ) (c : ServiceContext)
        → length junk.text < 16
        → (length (get_server_ip_from_client_ip k junk client w c).0 < 16)
          × All FitsBuffer (handle_get_network_interfaces k junk w c).1
    unfolding get_server_ip_from_client_ip handle_get_network_interfaces
    handle_get_network_interfaces-FitsBuffer client c o =
        (server_of-fits client c.eth_ifs o, interfaces_loop-FitsBuffer c.eth_ifs (omega (arith, o)))
