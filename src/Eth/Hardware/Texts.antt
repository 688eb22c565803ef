-- ===== src/Eth/Hardware/Texts.antt =====
-- The text of a hardware address, and the buffers of its commands.
use onvif_srvd_cmake.Prelude.{
  ℕ, ◌+◌, ◌-◌, ◌*◌, ◌/◌, ◌%◌, ◌<◌, Text, pos, none, some, true, [], ◌∷◌, ◌≡◌, ◌≢◌, refl, arith,
  bytes, length-append, ltb, All, if◌then◌else◌, ap,
}
use onvif_srvd_cmake.Prelude.Substring.{take}
use onvif_srvd_cmake.Kernel.{Kernel}
use onvif_srvd_cmake.Eth.{EthDevParam, is_open, dev_name}
use onvif_srvd_cmake.Eth.Lifecycle.{IsValid}
use onvif_srvd_cmake.Eth.Hardware.{
  hex_digit, mac_text, arphrd_ether, ioctl_hwaddr, get_hwaddr, get_hwaddr_text, set_hwaddr,
}

-- An independent reader of such a text.
abbrev pub hex_value : ℕ → ℕ
hex_value c = if ltb c 58 then c - 48 else c - 87

abbrev pub read_mac : Text → Text
read_mac (h ∷ l ∷ []) = (hex_value h * 16 + hex_value l) ∷ []
read_mac (h ∷ l ∷ colon ∷ rest) = (hex_value h * 16 + hex_value l) ∷ read_mac rest
read_mac _ = []

abbrev pub IsByte : ℕ → Type 0
IsByte b = b < 256

hex_value-hex_digit : (n : ℕ) → n < 16 → hex_value (hex_digit n) ≡ n
hex_value-hex_digit n h = ground arith

pub read_byte :
    (b : ℕ) → b < 256 → hex_value (hex_digit (b / 16)) * 16 + hex_value (hex_digit (b % 16)) ≡ b
read_byte b h =
    omega (
      arith,
      hex_value-hex_digit (b / 16) (omega arith),
      hex_value-hex_digit (b % 16) (omega arith),
    )

read_mac-mac_text : (bs : Text) → All IsByte bs → read_mac (mac_text bs) ≡ bs
unfolding mac_text
read_mac-mac_text [] h = refl
read_mac-mac_text (b ∷ []) h = rw (read_byte b h.0) refl
read_mac-mac_text (b ∷ c ∷ bs) (h, hs) =
    rw (read_byte b h) (ap (λ t. b ∷ t) (read_mac-mac_text (c ∷ bs) hs))

module _ (k : Kernel) (d : EthDevParam) (w : k.World) where
  -- On an open Ethernet interface both getters return 0, and the text reads as the first six
  -- bytes of the address.
  pub get_hwaddr_text-get_hwaddr :
      (old buffer sa_data : Text)
      → is_open d ≡ true
      → ioctl_hwaddr k d w ≡ some (arphrd_ether, sa_data)
      → All IsByte (take 6 sa_data)
      → (t : Text) × (get_hwaddr_text k (some old) d w
          ≡ (pos 0, some t, (get_hwaddr k (some buffer) d w).2))
        × (get_hwaddr k (some buffer) d w
            ≡ (pos 0, some (read_mac t), (get_hwaddr k (some buffer) d w).2))
  unfolding get_hwaddr_text get_hwaddr
  get_hwaddr_text-get_hwaddr old buffer sa_data o e small = (
    mac_text (take 6 sa_data),
    rw (o, e, get_hwaddr_text, get_hwaddr) refl,
    rw (o, e, read_mac-mac_text (take 6 sa_data) small, get_hwaddr) refl,
  )

  -- On an interface whose name fits in its request the commands of set_hwaddr do not overflow their
  -- buffer.
  pub set_hwaddr-fits : (mac : Text) → IsValid d → set_hwaddr k (some mac) d w ≢ none
  unfolding set_hwaddr bytes
  set_hwaddr-fits mac v = ground (
    arith,
    length-append (dev_name d) (bytes " down"),
    length-append (dev_name d) (bytes " up"),
    v.fits,
  )
