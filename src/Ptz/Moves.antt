-- ===== src/Ptz/Moves.antt =====
-- The commands that move the camera.
use onvif_srvd_cmake.Prelude.{
  Text, Option, none, some, List, [], ◌∷◌, ◌≡◌, ◌≢◌, refl, arith, c_str, bytes, inl, inr,
  Option-cases,
}
use onvif_srvd_cmake.Prelude.Substring.{str_find}
use onvif_srvd_cmake.Prelude.Substring.Laws.{Expands, str_find-IsFree, str_replace-Replaced}
use onvif_srvd_cmake.PtzNode.{PtzNode}
use onvif_srvd_cmake.Soap.{soap_ok, Effect, system, usleep}
use onvif_srvd_cmake.Ptz.{
  Floats, GotoPreset, template_str_t, fill_preset, goto_preset, goto_home_position, Vector,
  continuous_move, relative_move,
}

-- A relative move makes of each command of a continuous move three: the command, a pause of 0.3
-- seconds, and the stop command.
abbrev pub then_stop : PtzNode → List Effect → List Effect
then_stop n [] = []
then_stop n (e ∷ es) = e ∷ usleep 300000 ∷ system (c_str n.move_stop) ∷ then_stop n es

module _ (f : Floats) where
  -- A relative move runs the commands of the continuous move along the same vector, in the same
  -- order, each followed by a pause of 0.3 seconds and the stop command; both return SOAP_OK.
  pub relative_move-then_stop :
      (request : Option (Option (Option (Vector f)))) (n : PtzNode)
      → (relative_move f request n ≡ (soap_ok, then_stop n (continuous_move f request n).1))
        × ((continuous_move f request n).0 ≡ soap_ok)
  unfolding relative_move continuous_move
  relative_move-then_stop none n = (refl, refl)
  relative_move-then_stop (some none) n = (refl, refl)
  relative_move-then_stop (some (some none)) n = (refl, refl)
  relative_move-then_stop (some (some (some v))) n = (ground arith, refl)

filled : (cmd token : Text) → Expands template_str_t token cmd (fill_preset cmd token)
filled cmd token = elim (Option-cases (str_find template_str_t cmd)) [
  | inl nowhere ↦ rw (nowhere, fill_preset) (inl (str_find-IsFree template_str_t cmd nowhere, refl))
  | inr (it, there) ↦
      rw (there, fill_preset) (inr (str_replace-Replaced template_str_t token cmd it there))
]

-- With a preset command going to a preset runs one command: the preset command where it has no
-- "%t", else the text before its first "%t", the token as the client sent it, and the text behind,
-- each up to its first NUL. Going home with that profile is going to its preset "1".
pub goto_preset-Expands :
    (request : GotoPreset) (n : PtzNode)
    → n.move_preset ≢ []
    → (cmd : Text) × (goto_preset (some request) n ≡ (soap_ok, system (c_str cmd) ∷ []))
      × Expands template_str_t (c_str request.preset_token) (c_str n.move_preset) cmd
      × (goto_home_position (some request.profile_token) n
          ≡ goto_preset (some (record request { preset_token = bytes "1" })) n)
unfolding goto_preset goto_home_position bytes c_str
goto_preset-Expands request n set = (
  fill_preset (c_str n.move_preset) (c_str request.preset_token),
  ground arith,
  filled (c_str n.move_preset) (c_str request.preset_token),
  refl,
)
