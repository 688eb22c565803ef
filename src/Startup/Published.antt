-- ===== src/Startup/Published.antt =====
-- Every setting of a stream is in the table once the loop over the streams has ended.
use mathlib.Core.Path.{subst}
use onvif_srvd_cmake.Prelude.{
  Text, pos, some, true, Bool, false, not, List, [], ◌∷◌, ◌++◌, ◌≡◌, refl, sym, ap, c_str, All,
  bytes, eqb_ℤ, if◌then◌else◌,
}
use onvif_srvd_cmake.Prelude.StdMap.{find}
use onvif_srvd_cmake.Rtsp.{
  RtspStreamConfig, RtspStream, add_stream, get_stream, clear, launch, set_pipeline, set_udp_port,
  set_tcp_port, set_rtsp_url, set_test_stream, set_test_stream_src,
}
use onvif_srvd_cmake.Rtsp.Streams.{stream_table}
use onvif_srvd_cmake.Startup.{
  StreamSetting, Setup, exits, cannot_add_stream, configure_stream, streams_loop, int_of,
}
use onvif_srvd_cmake.Startup.Filling.{Holds, Holds-map, fill, fill-Shows}

-- What GStreamer is to run for a setting.
abbrev pub launch_of : StreamSetting → Text
launch_of s =
    if s.test_stream
    then bytes "\"( " ++ (c_str s.test_stream_src ++ c_str s.pipeline)
    else bytes "\"( -v udpsrc port=" ++ (c_str s.udp_port ++ c_str s.pipeline)

abbrev pub IsServer : StreamSetting → RtspStreamConfig → Type 0
IsServer s q =
    (q.tcp_port ≡ c_str s.tcp_port) × (q.rtsp_url ≡ c_str s.rtsp_url) × (launch q ≡ launch_of s)

-- The stream is found under the URL in the settings, with their port and launch text.
abbrev pub IsPublished : RtspStream → StreamSetting → Type 0
IsPublished t s =
    (q : RtspStreamConfig) × (find (c_str s.rtsp_url) t.streams ≡ some q) × IsServer s q

is_set : (b : Bool) → not (eqb_ℤ (int_of b) (pos 0)) ≡ b
is_set true = refl
is_set false = refl

configure_stream-launch :
    (s : StreamSetting) (r : RtspStreamConfig)
    → ((configure_stream s r).tcp_port ≡ c_str s.tcp_port)
      × ((configure_stream s r).rtsp_url ≡ c_str s.rtsp_url)
      × (launch (configure_stream s r) ≡ launch_of s)
unfolding configure_stream set_pipeline set_udp_port set_tcp_port set_rtsp_url set_test_stream
    set_test_stream_src launch
configure_stream-launch s r = (refl, refl, rw (is_set s.test_stream) refl)

abbrev fill_streams : List StreamSetting → RtspStreamConfig → RtspStream → Setup RtspStream
fill_streams =
    fill stream_table configure_stream clear (λ t. cannot_add_stream t.str_err)
      (λ s. c_str s.rtsp_url)

pub streams_loop-fill :
    (ss : List StreamSetting) (r : RtspStreamConfig) (t : RtspStream)
    → streams_loop ss r t ≡ fill_streams ss r t
unfolding streams_loop fill
streams_loop-fill [] r t = refl
streams_loop-fill (s ∷ ss) r t =
    let q = configure_stream s r in
    let (t', added) = add_stream q t in
    ap (λ rest. if not added then exits (cannot_add_stream t'.str_err) else rest)
      (streams_loop-fill ss (clear q) t')

pub streams_loop-IsPublished :
    (ss : List StreamSetting) (r : RtspStreamConfig) (t : RtspStream)
    → Holds (λ t'. All (IsPublished t') ss) (streams_loop ss r t)
unfolding get_stream
streams_loop-IsPublished ss r t =
    subst (Holds (λ t'. All (IsPublished t') ss)) (sym (streams_loop-fill ss r t)) (
      Holds-map _ (λ t'. All (IsPublished t') ss) (fill_streams ss r t) (λ t' h. h.0)
        (fill-Shows stream_table configure_stream clear _ (λ s. c_str s.rtsp_url) IsServer
          (λ s r. let (port, url, text) = configure_stream-launch s r in (url, (port, url, text)))
          ss r t))
