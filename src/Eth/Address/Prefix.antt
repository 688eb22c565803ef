-- ===== src/Eth/Address/Prefix.antt =====
-- The prefix length of a netmask.
use native.Mathlib.Nat.{
  pow-suc, mod-lt, mod-eq_of_lt, mul-lt-mul_of_pos_right, div-add-mod, add-mul-mod_self_left,
  mul-zero, mul-one, add-zero, zero-add,
}
use onvif_srvd_cmake.Prelude.{
  ℕ, zero, suc, ◌+◌, ◌-◌, ◌*◌, ◌/◌, ◌%◌, ◌^◌, ◌==◌, ◌≤◌, ◌<◌, ◌≡◌, refl, sym, ap, ◌∙◌, Option, none,
  some, Bool, true, false, arith, Bool-cases, inl, inr, if◌then◌else◌,
}
use onvif_srvd_cmake.Kernel.{Kernel, siocgifnetmask}
use onvif_srvd_cmake.Eth.{EthDevParam, is_open}
use onvif_srvd_cmake.Eth.Address.{prefix_loop, ntohl, get_mask_prefix, mask_or, get_mask, ioctl_get}

-- A common factor leaves a remainder.
mul-mod-mul : (c p q : ℕ) → 0 < p → 0 < q → (c * q) % (p * q) ≡ (c % p) * q
mul-mod-mul c p q hp hq =
    let split : c * q ≡ c % p * q + p * q * (c / p) =
      omega (arith, ap (λ t. t * q) (div-add-mod c p)) in
    let small : c % p * q < p * q = mul-lt-mul_of_pos_right (mod-lt c hp) hq in
    rw split (add-mul-mod_self_left (c % p * q) (p * q) (c / p) ∙ mod-eq_of_lt small)

split_power : (f q : ℕ) → 2 ^ suc f * q ≡ 2 ^ f * (q * 2)
split_power f q = omega (arith, ap (λ t. t * q) (pow-suc 2 f))

two_pow_pos : (f : ℕ) → 0 < 2 ^ f
two_pow_pos zero = omega arith
two_pow_pos (suc f) = omega (arith, pow-suc 2 f, two_pow_pos f)

double_pos : (f q : ℕ) → 2 ^ suc f * q ≡ 2 ^ 32 → 0 < q * 2
double_pos f zero h = absurd (omega (arith, mul-zero (2 ^ suc f)))
double_pos f (suc q) h = omega arith

-- One shift of a mask with `f + 1` significant bits drops the first of them.
shift_step : (f c q : ℕ) → 2 ^ suc f * q ≡ 2 ^ 32 → c * q * 2 % 2 ^ 32 ≡ (c % 2 ^ f) * (q * 2)
shift_step f c q h =
    let same : 2 ^ f * (q * 2) ≡ 2 ^ 32 = sym (split_power f q) ∙ h in
    let apart : c * q * 2 ≡ c * (q * 2) = omega arith in
    rw (apart, ← same) (mul-mod-mul c (2 ^ f) (q * 2) (two_pow_pos f) (double_pos f q h))

-- A mask of `f` significant bits is shifted out in at most `f` rounds.
prefix_loop_total :
    (f c q acc : ℕ)
    → 2 ^ f * q ≡ 2 ^ 32
    → c < 2 ^ f
    → (r : ℕ) × (prefix_loop (suc f) (c * q) acc ≡ some r) × (r ≤ acc + f)
unfolding prefix_loop
prefix_loop_total zero c q acc h lt = (acc, ground arith, omega arith)
prefix_loop_total (suc f) c q acc h lt = elim (Bool-cases (c * q == 0)) [
  | inl done ↦ (acc, rw (done, prefix_loop), omega arith)
  | inr more ↦
      let (r, e, b) =
        prefix_loop_total f (c % 2 ^ f) (q * 2) (acc + 1) (sym (split_power f q) ∙ h)
          (mod-lt c (two_pow_pos f)) in
      (r, rw (more, prefix_loop) (rw (shift_step f c q h) e), omega arith)
]

-- ntohl gives 32 bits.
ntohl_lt : (x : ℕ) → ntohl x < 2 ^ 32
unfolding ntohl
ntohl_lt x = omega arith

loop_total : (m : ℕ) → (r : ℕ) × (prefix_loop 33 (ntohl m) 0 ≡ some r) × (r ≤ 32)
loop_total m =
    let (r, e, b) = prefix_loop_total 32 (ntohl m) 1 0 refl (ntohl_lt m) in
    (r, rw (mul-one (ntohl m)) at e, b)

module _ (k : Kernel) (old : ℕ) (d : EthDevParam) (w : k.World) where
  open_mask :
      (m : ℕ)
      → is_open d ≡ true
      → ioctl_get k siocgifnetmask d w ≡ some m
      → (get_mask k (some old) d w).1 ≡ some m
  unfolding get_mask
  open_mask m o e = rw (o, e)

  closed_mask : is_open d ≡ false → (get_mask k (some old) d w).1 ≡ some old
  unfolding get_mask
  closed_mask o = rw o

abbrev pub is_prefix_of : ℕ → Option ℕ → Bool
is_prefix_of n none = false
is_prefix_of n (some m) = m == n

-- The netmask of `n` leading ones, in network byte order on a little-endian host.
abbrev pub netmask : ℕ → ℕ
netmask n = ntohl (2 ^ 32 - 2 ^ (32 - n))

abbrev counts_ones : ℕ → Bool
counts_ones n = is_prefix_of n (prefix_loop 33 (ntohl (netmask n)) 0)

-- The loop counts the ones of `rounds` netmasks, from `n` ones on.
abbrev masks_agree : ℕ → ℕ → Bool
masks_agree zero n = true
masks_agree (suc rounds) n = if counts_ones n then masks_agree rounds (n + 1) else false

masks_agree-counts_ones :
    (rounds n i : ℕ) → masks_agree rounds n ≡ true → i < rounds → counts_ones (n + i) ≡ true
masks_agree-counts_ones zero n i h b = absurd (omega arith)
masks_agree-counts_ones (suc rounds) n zero h b = rw add-zero (ground arith)
masks_agree-counts_ones (suc rounds) n (suc i) h b =
    let next : n + suc i ≡ n + 1 + i = omega arith in
    rw next (masks_agree-counts_ones rounds (n + 1) i (ground arith) (omega arith))

all_masks : masks_agree 33 0 ≡ true
unfolding prefix_loop ntohl
all_masks = refl

prefix_of_netmask : (n : ℕ) → n ≤ 32 → prefix_loop 33 (ntohl (netmask n)) 0 ≡ some n
prefix_of_netmask n h =
    let counted = masks_agree-counts_ones 33 0 n all_masks (omega arith) in
    let same : 0 + n ≡ n = zero-add n in
    let here : counts_ones n ≡ true = rw same at counted in ground (arith, here)

-- The loop of get_mask_prefix ends on every netmask, even one that was never read, after at most
-- 32 shifts.
pub get_mask_prefix_total :
    (k : Kernel) (old : ℕ) (d : EthDevParam) (w : k.World)
    → (r : ℕ) × ((get_mask_prefix k old d w).0 ≡ some r) × (r ≤ 32)
unfolding get_mask_prefix
get_mask_prefix_total k old d w = loop_total (mask_or old (get_mask k (some old) d w).1)

-- The prefix length of a netmask with n leading ones is n, whether get_mask has read it or has failed
-- and the variable held it before.
pub get_mask_prefix-netmask :
    (k : Kernel) (old n : ℕ) (d : EthDevParam) (w : k.World)
    → n ≤ 32
    → mask_or old (get_mask k (some old) d w).1 ≡ netmask n
    → (get_mask_prefix k old d w).0 ≡ some n
unfolding get_mask_prefix
get_mask_prefix-netmask k old n d w h e = rw e (prefix_of_netmask n h)
