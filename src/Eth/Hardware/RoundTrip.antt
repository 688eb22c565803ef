-- ===== src/Eth/Hardware/RoundTrip.antt =====
-- A hardware address that was read as text can be set again.
use onvif_srvd_cmake.Prelude.{
  ℕ, ◌%◌, ◌<◌, ◌==◌, Text, pos, some, true, false, List, [], ◌∷◌, ◌≡◌, refl, arith, length, c_str,
  All,
}
use onvif_srvd_cmake.Prelude.Substring.{take}
use onvif_srvd_cmake.Kernel.{Kernel}
use onvif_srvd_cmake.Eth.{EthDevParam, is_open, ether}
use onvif_srvd_cmake.Eth.Address.{with_payload}
use onvif_srvd_cmake.Eth.Hardware.{
  hex_digit, mac_text, arphrd_ether, ioctl_hwaddr, ioctl_set_hwaddr, get_hwaddr_text,
  set_hwaddr_text,
}
use onvif_srvd_cmake.Eth.Hardware.Texts.{IsByte}

-- What sscanf does on six bytes in hexadecimal digits: it reads all of them.
abbrev pub ReadsBytes : (Text → List ℕ) → Type 0
ReadsBytes scan =
    (a b c d e f : ℕ)
    → All IsByte (a ∷ b ∷ c ∷ d ∷ e ∷ f ∷ [])
    → scan (mac_text (a ∷ b ∷ c ∷ d ∷ e ∷ f ∷ [])) ≡ a ∷ b ∷ c ∷ d ∷ e ∷ f ∷ []

-- No digit ends the text.
digit_not_nul : (n : ℕ) → (hex_digit n == 0) ≡ false
digit_not_nul n = ground arith

length-mac_text : (a b c d e f : ℕ) → length (c_str (mac_text (a ∷ b ∷ c ∷ d ∷ e ∷ f ∷ []))) ≡ 17
unfolding mac_text c_str
length-mac_text a b c d e f = simp (digit_not_nul)

low_byte : (b : ℕ) → b < 256 → b % 256 ≡ b
low_byte b h = omega arith

module _ (k : Kernel) (d : EthDevParam) (w : k.World) where
  -- On an open Ethernet interface the text of its hardware address, given to set_hwaddr, sets the six
  -- bytes that the kernel answered, whatever the ints held before.
  pub set_hwaddr_text-get_hwaddr_text :
      (scan : Text → List ℕ) (junk : List ℕ) (old : Text) (b1 b2 b3 b4 b5 b6 : ℕ) (rest : Text)
      → ReadsBytes scan
      → is_open d ≡ true
      → ioctl_hwaddr k d w ≡ some (arphrd_ether, b1 ∷ b2 ∷ b3 ∷ b4 ∷ b5 ∷ b6 ∷ rest)
      → All IsByte (b1 ∷ b2 ∷ b3 ∷ b4 ∷ b5 ∷ b6 ∷ [])
      → let mac = b1 ∷ b2 ∷ b3 ∷ b4 ∷ b5 ∷ b6 ∷ [] in
        let (ret, text, read) = get_hwaddr_text k (some old) d w in
        (ret ≡ pos 0)
        × (set_hwaddr_text k scan junk text read w ≡ (
          (ioctl_set_hwaddr k mac d w).0,
          with_payload (ether arphrd_ether mac) d,
          (ioctl_set_hwaddr k mac d w).1,
        ))
  unfolding get_hwaddr_text set_hwaddr_text take
  set_hwaddr_text-get_hwaddr_text scan junk old b1 b2 b3 b4 b5 b6 rest reads o e small =
      let (h1, (h2, (h3, (h4, (h5, (h6, _)))))) = small in
      rw (o, e, get_hwaddr_text)
        (
          refl,
          rw
              (
                reads b1 b2 b3 b4 b5 b6 small,
                length-mac_text b1 b2 b3 b4 b5 b6,
                o,
                low_byte b1 h1,
                low_byte b2 h2,
                low_byte b3 h3,
                low_byte b4 h4,
                low_byte b5 h5,
                low_byte b6 h6,
                set_hwaddr_text,
              )
              refl,
        )
