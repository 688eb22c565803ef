-- ===== src/Tests/Services.antt =====
-- Runs of the media and PTZ services and of the streams.
use onvif_srvd_cmake.Prelude.{
  ◌+◌, Text, some, false, List, [], ◌∷◌, ◌≡◌, refl, bytes, is_some, length, All, c_str,
}
use onvif_srvd_cmake.Prelude.StdMap.{find}
use onvif_srvd_cmake.Prelude.Substring.Laws.{Expands}
use onvif_srvd_cmake.Soap.{soap_ok, system}
use onvif_srvd_cmake.Media.{
  handle_get_profile, handle_get_profiles, handle_get_stream_uri, handle_get_snapshot_uri,
  handle_get_compatible_video_encoder_configurations,
  handle_get_compatible_video_source_configurations,
}
use onvif_srvd_cmake.Media.Tokens.{IsConsistent, status_of, token_status, get_profiles-IsConsistent}
use onvif_srvd_cmake.Ptz.{GotoPreset, goto_preset, goto_home_position, template_str_t}
use onvif_srvd_cmake.Ptz.Moves.{goto_preset-Expands}
use onvif_srvd_cmake.Rtsp.{RtspStreamConfig, RtspStream, add_stream, is_valid}
use onvif_srvd_cmake.Rtsp.Streams.{IsWellFormed as IsTable, add_stream-IsWellFormed}
use onvif_srvd_cmake.Rtsp.References.Histories.{
  HandleOp, adopt, copy_of, copy_to, move_to, destroys, attaches, run, release, no_handles,
}
use onvif_srvd_cmake.Rtsp.References.Balance.{owned, run_balanced}
use onvif_srvd_cmake.Tests.Fixtures.{toy, junk, camera, mover, context, context-IsWellFormed}

token_status_example :
    ((handle_get_profile camera.name context).0 ≡ status_of (find camera.name context.profiles))
    × (is_some (handle_get_profile camera.name context).1
        ≡ is_some (find camera.name context.profiles))
    × ((handle_get_stream_uri toy junk 5 3 camera.name context).0
        ≡ status_of (find camera.name context.profiles))
    × (is_some (handle_get_stream_uri toy junk 5 3 camera.name context).1
        ≡ is_some (find camera.name context.profiles))
    × ((handle_get_snapshot_uri toy junk 5 3 camera.name context).0
        ≡ status_of (find camera.name context.profiles))
    × (is_some (handle_get_snapshot_uri toy junk 5 3 camera.name context).1
        ≡ is_some (find camera.name context.profiles))
    × ((handle_get_compatible_video_encoder_configurations camera.name context).0
        ≡ status_of (find camera.name context.profiles))
    × ((handle_get_compatible_video_source_configurations camera.name context).0
        ≡ status_of (find camera.name context.profiles))
token_status_example = token_status toy junk 5 3 camera.name context

get_profiles-IsConsistent_example :
    ((handle_get_profiles context).0 ≡ soap_ok)
    × (length (handle_get_profiles context).1 ≡ length context.profiles)
    × All (IsConsistent context) (handle_get_profiles context).1
get_profiles-IsConsistent_example = get_profiles-IsConsistent context context-IsWellFormed

-- A token that ends the preset command and starts another.
abbrev injected : GotoPreset
injected = record { profile_token = bytes "cam"; preset_token = bytes "1; reboot" }

goto_preset-Expands_example :
    (cmd : Text) × (goto_preset (some injected) mover ≡ (soap_ok, system (c_str cmd) ∷ []))
    × Expands template_str_t (c_str injected.preset_token) (c_str mover.move_preset) cmd
    × (goto_home_position (some injected.profile_token) mover
        ≡ goto_preset (some (record injected { preset_token = bytes "1" })) mover)
unfolding bytes
goto_preset-Expands_example = goto_preset-Expands injected mover (λ e. cc)

abbrev live : RtspStreamConfig
live = record {
  pipeline = bytes "! queue )";
  udp_port = bytes "5000";
  tcp_port = bytes "554";
  rtsp_url = bytes "/live";
  test_stream = false;
  test_stream_src = bytes "videotestsrc";
  str_err = [];
}

abbrev table : RtspStream
table = record { streams = (bytes "/live", live) ∷ []; str_err = [] }

table-IsWellFormed : IsTable table
unfolding is_valid bytes
table-IsWellFormed = record {
  sorted = (tt, tt);
  stored = (record { named = refl; valid = refl }, tt);
}

add_stream-IsWellFormed_example : IsTable (add_stream live table).0
add_stream-IsWellFormed_example = add_stream-IsWellFormed live table table-IsWellFormed

-- Two handles of one object, of which one is assigned to itself, copied and moved over the other.
abbrev some_history : List HandleOp
some_history =
    adopt 7
    ∷ adopt 8
    ∷ copy_to 0 0
    ∷ adopt 7
    ∷ copy_of 2
    ∷ move_to 1 3
    ∷ destroys 2
    ∷ attaches 1
    ∷ []

run_balanced_example :
    ((run some_history (no_handles (λ p. 3))).counts 7
      ≡ 3
        + owned (run some_history (no_handles (λ p. 3))).handles 7
        + (run some_history (no_handles (λ p. 3))).held 7)
    × (release
          (run some_history (no_handles (λ p. 3))).handles
          (run some_history (no_handles (λ p. 3))).counts
          7
        ≡ 3 + (run some_history (no_handles (λ p. 3))).held 7)
run_balanced_example = run_balanced (λ p. 3) some_history 7
