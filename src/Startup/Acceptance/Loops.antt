-- ===== src/Startup/Acceptance/Loops.antt =====
-- What the two loops of processing_cfg accept.
use onvif_srvd_cmake.Prelude.{all, Text, ℤ, List, ◌&&◌, ◌≡◌, refl, ap, ◌∙◌, c_str, map}
use onvif_srvd_cmake.Profile
use onvif_srvd_cmake.Profile.{StreamProfile}
use onvif_srvd_cmake.Context.{ServiceContext}
use onvif_srvd_cmake.Context.Profiles.{profile_table}
use onvif_srvd_cmake.Table.{Keys}
use onvif_srvd_cmake.Startup.Filling.{starts, all_new, fill-starts}
use onvif_srvd_cmake.Startup.Served.{profiles_loop-fill}
use onvif_srvd_cmake.Startup.Published.{streams_loop-fill}
use onvif_srvd_cmake.Rtsp
use onvif_srvd_cmake.Rtsp.{
  RtspStreamConfig, RtspStream, add_stream, get_stream, set_pipeline, set_udp_port, set_tcp_port,
  set_rtsp_url, set_test_stream, set_test_stream_src,
}
use onvif_srvd_cmake.Rtsp.Streams.{stream_table}
use onvif_srvd_cmake.Startup.{
  ProfileSetting, StreamSetting, configure_profile, configure_stream, profiles_loop, streams_loop,
}
use onvif_srvd_cmake.Startup.Acceptance.{
  profile_accepted, stream_accepted, IsUnset, is_valid-configure_profile,
}

clear-IsUnset : (p : StreamProfile) → IsUnset (Profile.clear p)
unfolding Profile.clear
clear-IsUnset p = (refl, refl, refl)

abbrev pub names : List ProfileSetting → List Text
names = map (λ s. c_str s.name)

abbrev pub urls : List StreamSetting → List Text
urls = map (λ s. c_str s.rtsp_url)

pub profiles_loop-starts :
    (old : ProfileSetting → ℤ × ℤ) (ss : List ProfileSetting) (p : StreamProfile)
    (c : ServiceContext) (seen : List Text)
    → IsUnset p
    → Keys profile_table c seen
    → starts (profiles_loop old ss p c) ≡ (all (profile_accepted old) ss && all_new seen (names ss))
profiles_loop-starts old ss p c seen unset keys =
    ap starts (profiles_loop-fill old ss p c)
    ∙ fill-starts profile_table (configure_profile old) Profile.clear _ (λ s. c_str s.name) IsUnset
        (profile_accepted old) clear-IsUnset (is_valid-configure_profile old) ss p c seen unset keys

pub is_valid-configure_stream :
    (s : StreamSetting) (r : RtspStreamConfig)
    → (Rtsp.is_valid (configure_stream s r) ≡ stream_accepted s)
      × ((configure_stream s r).rtsp_url ≡ c_str s.rtsp_url)
unfolding configure_stream set_pipeline set_udp_port set_tcp_port set_rtsp_url set_test_stream
    set_test_stream_src Rtsp.is_valid
is_valid-configure_stream s r = (refl, refl)

pub streams_loop-starts :
    (ss : List StreamSetting) (r : RtspStreamConfig) (t : RtspStream) (seen : List Text)
    → Keys stream_table t seen
    → starts (streams_loop ss r t) ≡ (all stream_accepted ss && all_new seen (urls ss))
streams_loop-starts ss r t seen keys =
    ap starts (streams_loop-fill ss r t)
    ∙ fill-starts stream_table configure_stream Rtsp.clear _ (λ s. c_str s.rtsp_url) (λ r. Unit)
        stream_accepted (λ r. tt) (λ s r _. is_valid-configure_stream s r) ss r t seen tt keys
