-- ===== src/Ptz/Presets.antt =====
-- The presets that are listed.
use native.Mathlib.Nat.{add-zero, zero-add}
use onvif_srvd_cmake.Prelude.{
  ℕ, zero, suc, ◌+◌, ◌<◌, ℤ, pos, some, ◌≡◌, refl, ap, ◌∙◌, arith, length, get_elem?,
}
use onvif_srvd_cmake.Prelude.Stream.{extract_int}
use onvif_srvd_cmake.Prelude.Stream.RoundTrip.{extract_int-decimal}
use onvif_srvd_cmake.Ptz.{PtzPreset, get_ptz_preset, presets_loop, get_presets}
use onvif_srvd_cmake.Ptz.Nodes.{get_ptz_node, get_node}

length-presets_loop : (rounds i : ℕ) → length (presets_loop rounds i) ≡ rounds
unfolding presets_loop
length-presets_loop zero i = refl
length-presets_loop (suc rounds) i = omega (arith, length-presets_loop rounds (i + 1))

get_elem?-presets_loop :
    (rounds i j : ℕ)
    → j < rounds
    → get_elem? (presets_loop rounds i) j ≡ some (get_ptz_preset (i + j))
unfolding presets_loop
get_elem?-presets_loop zero i j h = elim h [ ]
get_elem?-presets_loop (suc rounds) i zero h = rw add-zero
get_elem?-presets_loop (suc rounds) i (suc j) h =
    let step : i + 1 + j ≡ i + suc j = omega arith in
    rw (get_elem?-presets_loop rounds (i + 1) j (omega arith), step)

-- As many presets are listed as the node announces at most, and the i-th of them, from 0 to 7, has a token and a
-- name that read as the number i.
pub get_presets-numbered :
    (i : ℕ) (old : ℤ)
    → i < 8
    → (length get_presets.1 ≡ get_node.1.maximum_number_of_presets)
      × ((p : PtzPreset) × (get_elem? get_presets.1 i ≡ some p)
          × (extract_int old p.token ≡ pos i)
          × (p.name ≡ p.token))
unfolding get_presets get_node get_ptz_node get_ptz_preset
get_presets-numbered i old h = (
  refl,
  (
    get_ptz_preset i,
    get_elem?-presets_loop 8 0 i h ∙ ap (λ n. some (get_ptz_preset n)) (zero-add i),
    extract_int-decimal old i (omega arith),
    refl,
  ),
)
