-- ===== src/Eth/Lifecycle.antt =====
-- Opening and closing an interface.
use onvif_srvd_cmake.Prelude.{
  ℕ, ◌<◌, Text, ℤ, pos, Option, none, some, true, false, ◌≡◌, ◌≢◌, ◌↔◌, ◌⊎◌, refl, inl, inr, length,
  leb, arith, Bool-cases, minus_one,
}
use onvif_srvd_cmake.Kernel.{Kernel}
use onvif_srvd_cmake.Eth.{
  EthDevParam, ifnamsiz, empty_ifreq, is_open, dev_name, close, open_on, open_dev,
}

-- The invariant of an object: it is open exactly while it has a socket, and the name with its
-- NUL fits in the IFNAMSIZ bytes of the request.
pub record IsValid (d : EthDevParam) : Type 0 where
  pub opened : (d.opened ≡ true) ↔ (d.sd ≢ none)
  pub fits : length d.ifr.ifr_name < ifnamsiz

too_long : (name : Text) → length name < ifnamsiz → leb ifnamsiz (length name) ≡ false
too_long name h = ground arith

module _ (k : Kernel) where
  open k use {World}

  pub close-IsValid : (d : EthDevParam) (w : World) → IsValid (close k d w).0
  unfolding close
  close-IsValid d w = record { opened = ground arith; fits = omega arith }

  -- What opening establishes, of its three results.
  abbrev pub IsOpening : Option Text → ℤ × EthDevParam × World → Type 0
  IsOpening name r =
      IsValid r.1
      × ((r.0 ≡ pos 0) × (is_open r.1 ≡ true) × (name ≡ some (dev_name r.1))
          ⊎ (r.0 ≡ minus_one) × (is_open r.1 ≡ false))

  refused :
      (name : Option Text) (d : EthDevParam) (w v : World)
      → IsOpening name (minus_one, (close k d w).0, v)
  unfolding close
  refused name d w v = (record { opened = ground arith; fits = omega arith }, inr (refl, refl))

  open_on-IsOpening :
      (name : Text) (d : EthDevParam) (s : Option ℕ × World)
      → length name < ifnamsiz
      → IsValid d
      → d.opened ≡ false
      → IsOpening (some name) (open_on k name d s)
  unfolding open_on close
  open_on-IsOpening name d (none, w) h v c =
      (record { opened = ground arith; fits = v.fits }, inr (refl, c))
  open_on-IsOpening name d (some fd, w) h v c = elim (Bool-cases (k.get_flags fd name w)) [
    | inl up ↦ rw (up, open_on) (record { opened = ground arith; fits = h }, inl (refl, refl, refl))
    | inr down ↦
        rw (down, open_on) (record { opened = ground arith; fits = omega arith }, inr (refl, refl))
  ]

  close_opened : (d : EthDevParam) (w : World) → (close k d w).0.opened ≡ false
  unfolding close
  close_opened d w = refl

  -- Whatever the object was, opening leaves it well formed: open exactly while it has a socket,
  -- with a name that fits. Either 0 was returned, it is open and holds the name given, or -1 was
  -- returned and it is not open.
  pub open_dev-IsOpening :
      (name : Option Text) (d : EthDevParam) (w : World) → IsOpening name (open_dev k name d w)
  unfolding open_dev
  open_dev-IsOpening none d w = refused none d w (close k d w).1
  open_dev-IsOpening (some name) d w = elim (Bool-cases (leb ifnamsiz (length name))) [
    | inl long ↦ rw (long, open_dev) (refused (some name) d w (close k d w).1)
    | inr short ↦
        rw (short, open_dev)
          (open_on-IsOpening name (close k d w).0 (k.socket (close k d w).1) (ground arith)
            (close-IsValid d w) (close_opened d w))
  ]

  -- No socket is lost when opening fails: where the interface has no flags the new socket is
  -- closed again, the old one having been closed before, and the object is back in the closed state.
  pub open_dev_failed :
      (name : Text) (d : EthDevParam) (w w' : World) (fd : ℕ)
      → length name < ifnamsiz
      → k.socket (close k d w).1 ≡ (some fd, w')
      → k.get_flags fd name w' ≡ false
      → open_dev k (some name) d w
        ≡ (minus_one, record { sd = none; opened = false; ifr = empty_ifreq }, k.close fd w')
  unfolding open_dev open_on
  open_dev_failed name d w w' fd h s f =
      rw (too_long name h, open_dev) (rw (s, open_on) (rw (f, open_on) (unfold close in refl)))
