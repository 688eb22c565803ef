-- ===== src/Services/Erasure.antt =====
-- What of the context a request can change: only what the requests of the interfaces hold. `erase`
-- forgets that, and every reader of an interface is the same behind it.
use onvif_srvd_cmake.Prelude.{
  ℤ, ℕ, Text, Option, some, Bool, List, [], ◌∷◌, ◌≡◌, refl, ap, map, arith, ◌==◌, Bool-cases, inl,
  inr,
}
use Prim.Native.Nat.{bit_and}
use mathlib.Core.Path.{ap₂}
use onvif_srvd_cmake.Kernel.{Kernel, AddrRequest, siocgifaddr, siocgifdstaddr, siocgifnetmask}
use onvif_srvd_cmake.Eth.{EthDevParam, zeroed}
use onvif_srvd_cmake.Eth.Address.{
  with_payload, get_number, get_text, get_ip, get_ip_text, get_mask, get_mask_prefix,
}
use onvif_srvd_cmake.Eth.Hardware.{get_hwaddr_text}
use onvif_srvd_cmake.Context.{ServiceContext}
use onvif_srvd_cmake.Context.Servers.{Junk, contents, server_loop, server_of}
use onvif_srvd_cmake.Device.Interfaces.{network_interface, interfaces_loop}

abbrev pub erase_eth : EthDevParam → EthDevParam
erase_eth = with_payload zeroed

abbrev pub erase_all : List EthDevParam → List EthDevParam
erase_all = map erase_eth

abbrev pub erase : ServiceContext → ServiceContext
erase c = record c { eth_ifs = erase_all c.eth_ifs }

erase_all-erase_all : (ds : List EthDevParam) → erase_all (erase_all ds) ≡ erase_all ds
erase_all-erase_all [] = refl
erase_all-erase_all (d ∷ ds) = ap (λ es. erase_eth d ∷ es) (erase_all-erase_all ds)

pub erase-erase : (c : ServiceContext) → erase (erase c) ≡ erase c
erase-erase c = ap (λ ds. record c { eth_ifs = ds }) (erase_all-erase_all c.eth_ifs)

-- Two states of an interface that differ in their request only.
abbrev pub Alike : EthDevParam → EthDevParam → Type 0
Alike d e = erase_eth d ≡ erase_eth e

module _ (k : Kernel) (w : k.World) where
  -- A reader finds on both what it finds behind erase, and leaves them alike.
  get_number-erase :
      (r : AddrRequest) (old : ℕ) (d e : EthDevParam)
      → Alike d e
      → ((get_number k r (some old) d w).1 ≡ (get_number k r (some old) (erase_eth e) w).1)
        × Alike (get_number k r (some old) d w).2 e
  unfolding get_number
  get_number-erase r old d e a = rw (← a) (ground arith)

  get_text-erase :
      (r : AddrRequest) (old : Text) (d e : EthDevParam)
      → Alike d e
      → ((get_text k r (some old) d w).1 ≡ (get_text k r (some old) (erase_eth e) w).1)
        × Alike (get_text k r (some old) d w).2 e
  unfolding get_text
  get_text-erase r old d e a = rw (← a) (ground arith)

  get_hwaddr_text-erase :
      (old : Text) (d e : EthDevParam)
      → Alike d e
      → ((get_hwaddr_text k (some old) d w).1 ≡ (get_hwaddr_text k (some old) (erase_eth e) w).1)
        × Alike (get_hwaddr_text k (some old) d w).2 e
  unfolding get_hwaddr_text
  get_hwaddr_text-erase old d e a = rw (← a) (ground arith)

  module _ (junk : Junk) (client : ℕ) where
    abbrev ip_read : EthDevParam → ℤ × Option ℕ × EthDevParam
    ip_read d = get_ip k (some junk.ip) d w

    abbrev mask_read : EthDevParam → ℤ × Option ℕ × EthDevParam
    mask_read d = get_mask k (some junk.mask) (ip_read d).2 w

    abbrev text_read : EthDevParam → ℤ × Option Text × EthDevParam
    text_read d = get_ip_text k (some junk.text) (mask_read d).2 w

    -- The three readings of one round of the loop.
    round-erase :
        (d e : EthDevParam)
        → Alike d e
        → ((ip_read d).1 ≡ (ip_read (erase_eth e)).1)
          × ((mask_read d).1 ≡ (get_mask k (some junk.mask) (erase_eth e) w).1)
          × ((text_read d).1 ≡ (get_ip_text k (some junk.text) (erase_eth e) w).1)
          × Alike (mask_read d).2 e
          × Alike (text_read d).2 e
    unfolding get_ip get_mask get_ip_text
    round-erase d e a =
        let (ip, a1) = get_number-erase siocgifdstaddr junk.ip d e a in
        let (mask, a2) = get_number-erase siocgifnetmask junk.mask (ip_read d).2 e a1 in
        let (text, a3) = get_text-erase siocgifaddr junk.text (mask_read d).2 e a2 in
        (ip, mask, text, a2, a3)

    server_loop-erase :
        (ds : List EthDevParam)
        → ((server_loop k junk client w ds).0 ≡ (server_loop k junk client w (erase_all ds)).0)
          × (erase_all (server_loop k junk client w ds).1 ≡ erase_all ds)
    unfolding server_loop
    server_loop-erase [] = (refl, refl)
    server_loop-erase (d ∷ ds) =
        let (ip, mask, text, a2, a3) = round-erase d d refl in
        let (ip', mask', text', _, _) = round-erase (erase_eth d) d refl in
        let (same, alike) = server_loop-erase ds in
        let if_mask : ℕ = contents junk.mask (get_mask k (some junk.mask) (erase_eth d) w).1 in
        let here : Bool =
          bit_and (contents junk.ip (ip_read (erase_eth d)).1) if_mask == bit_and client if_mask in
        rw (ip, mask, mask', text, text', same)
          (elim (Bool-cases here) [
            | inl found ↦ rw found (refl, ap (λ x. x ∷ erase_all ds) a3)
            | inr other ↦ rw other (refl, ap₂ (λ x xs. x ∷ xs) a2 alike)
          ])

    pub server_of-erase :
        (ds : List EthDevParam)
        → ((server_of k junk client w ds).0 ≡ (server_of k junk client w (erase_all ds)).0)
          × (erase_all (server_of k junk client w ds).1 ≡ erase_all ds)
    unfolding server_of get_ip_text
    server_of-erase [] = server_loop-erase []
    server_of-erase (d ∷ []) =
        let (text, a) = get_text-erase siocgifaddr junk.text d d refl in
        (ap (contents junk.text) text, ap (λ x. x ∷ []) a)
    server_of-erase (d ∷ e ∷ ds) = server_loop-erase (d ∷ e ∷ ds)

  module _ (junk : Junk) where
    abbrev hw_read : EthDevParam → ℤ × Option Text × EthDevParam
    hw_read d = get_hwaddr_text k (some junk.text) d w

    -- The buffer behind the first reading.
    abbrev hw_text : EthDevParam → Text
    hw_text d = contents junk.text (hw_read (erase_eth d)).1

    abbrev address_read : Text → EthDevParam → ℤ × Option Text × EthDevParam
    address_read t d = get_ip_text k (some t) (hw_read d).2 w

    abbrev prefix_read : Text → EthDevParam → ℤ × Option ℕ × EthDevParam
    prefix_read t d = get_mask k (some junk.mask) (address_read t d).2 w

    -- The three readings of GetNetworkInterfaces.
    described-erase :
        (d e : EthDevParam)
        → Alike d e
        → ((hw_read d).1 ≡ (hw_read (erase_eth e)).1)
          × ((address_read (hw_text e) d).1 ≡ (get_ip_text k (some (hw_text e)) (erase_eth e) w).1)
          × ((prefix_read (hw_text e) d).1 ≡ (get_mask k (some junk.mask) (erase_eth e) w).1)
          × Alike (prefix_read (hw_text e) d).2 e
    unfolding get_ip_text get_mask
    described-erase d e a =
        let (hw, a1) = get_hwaddr_text-erase junk.text d e a in
        let (text, a2) = get_text-erase siocgifaddr (hw_text e) (hw_read d).2 e a1 in
        let (mask, a3) =
          get_number-erase siocgifnetmask junk.mask (address_read (hw_text e) d).2 e a2 in
        (hw, text, mask, a3)

    network_interface-erase :
        (d : EthDevParam)
        → ((network_interface k junk w d).0 ≡ (network_interface k junk w (erase_eth d)).0)
          × Alike (network_interface k junk w d).1 d
    unfolding network_interface get_mask_prefix
    network_interface-erase d =
        let (hw, text, mask, a) = described-erase d d refl in
        let (_, text', mask', _) = described-erase (erase_eth d) d refl in
        rw (hw, text, text', mask, mask') (refl, a)

    pub interfaces_loop-erase :
        (ds : List EthDevParam)
        → ((interfaces_loop k junk w ds).0 ≡ (interfaces_loop k junk w (erase_all ds)).0)
          × (erase_all (interfaces_loop k junk w ds).1 ≡ erase_all ds)
    unfolding interfaces_loop
    interfaces_loop-erase [] = (refl, refl)
    interfaces_loop-erase (d ∷ ds) =
        let (same, a) = network_interface-erase d in
        let (rest, others) = interfaces_loop-erase ds in
        (ap₂ (λ x xs. x ∷ xs) same rest, ap₂ (λ x xs. x ∷ xs) a others)
