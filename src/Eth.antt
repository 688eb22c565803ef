-- ===== src/Eth.antt =====
-- Eth_Dev_Param of src/eth_dev_param.h and src/eth_dev_param.cpp: one network interface behind a
-- socket. A function of the class takes the state of the object and of the world and returns the
-- new states with its result; the `const` getters write to the request that the object holds too.
-- An out parameter is the contents of the buffer, none for NULL.
pub mod Address
pub mod Gateway
pub mod Hardware
pub mod Lifecycle
use onvif_srvd_cmake.Prelude.{
  ℕ, Text, ℤ, pos, Option, none, some, Bool, true, false, not, [], ◌&&◌, ◌||◌, length, bytes, leb,
  minus_one, eqb_ℤ, if◌then◌else◌, is_some,
}
use onvif_srvd_cmake.Kernel.{Kernel}

-- IFNAMSIZ
abbrev pub ifnamsiz : ℕ
ifnamsiz = 16

-- What the union of `struct ifreq` holds: zeros, the flags that the kernel answered, an AF_INET
-- address, or a hardware address with its family.
pub data Payload : Type 0 where
  zeroed flags : Payload
  inet : ℕ → Payload
  ether : ℕ → Text → Payload

pub record Ifreq : Type 0 where
  pub ifr_name : Text
  pub payload : Payload

-- `sd` is none where the program holds -1.
pub record EthDevParam : Type 0 where
  pub sd : Option ℕ
  pub opened : Bool
  pub ifr : Ifreq

abbrev pub empty_ifreq : Ifreq
empty_ifreq = record { ifr_name = []; payload = zeroed }

-- The constructor. It leaves the request unset; `open` clears it before any use.
abbrev pub new_eth : Ifreq → EthDevParam
new_eth junk = record { sd = none; opened = false; ifr = junk }

abbrev pub is_open : EthDevParam → Bool
is_open d = d.opened

abbrev pub dev_name : EthDevParam → Text
dev_name d = d.ifr.ifr_name

module _ (k : Kernel) where
  open k use {World}

  -- Eth_Dev_Param::close
  unfoldable pub close : EthDevParam → World → EthDevParam × World
  close d w = (
    record { sd = none; opened = false; ifr = empty_ifreq },
    elim d.sd [ none ↦ w | some fd ↦ k.close fd w ],
  )

  -- The part of `open` behind the call of `socket`.
  unfoldable pub open_on : Text → EthDevParam → Option ℕ × World → ℤ × EthDevParam × World
  open_on name d (none, w) = (minus_one, record d { sd = none }, w)
  open_on name d (some fd, w) =
      let named = record d { sd = some fd; ifr = record { ifr_name = name; payload = zeroed } } in
      let (closed, w') = close named w in
      if k.get_flags fd name w
      then (
        pos 0,
        record named { opened = true; ifr = record { ifr_name = name; payload = flags } },
        w,
      )
      else (minus_one, closed, w')

  -- Eth_Dev_Param::open
  unfoldable pub open_dev : Option Text → EthDevParam → World → ℤ × EthDevParam × World
  open_dev none d w = let (d', w') = close d w in (minus_one, d', w')
  open_dev (some name) d w =
      let (d', w') = close d w in
      if leb ifnamsiz (length name) then (minus_one, d', w') else open_on name d' (k.socket w')
