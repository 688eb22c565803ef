-- ===== src/Rtsp.antt =====
-- RTSPStreamConfig, RTSPStream and the launch text of GStreamerRTSP: src/rtsp-streams.hpp and
-- src/rtsp-streams.cpp. A `const char *` that may be NULL is an Option.
pub mod Streams
pub mod References
pub mod Server
pub mod Settings
use onvif_srvd_cmake.Prelude.{
  ℕ, Text, ℤ, pos, Option, none, some, Bool, true, false, not, [], ◌++◌, ◌&&◌, is_empty, is_some,
  bytes, eqb_ℤ, if◌then◌else◌,
}
use onvif_srvd_cmake.Prelude.StdMap.{StdMap, find, assign}

pub record RtspStreamConfig : Type 0 where
  pub pipeline : Text
  pub udp_port : Text
  pub tcp_port : Text
  pub rtsp_url : Text
  pub test_stream : Bool
  pub test_stream_src : Text
  pub str_err : Text

unfoldable pub set_pipeline : Option Text → RtspStreamConfig → RtspStreamConfig × Bool
set_pipeline none s = (record s { str_err = bytes "pipeline is empty" }, false)
set_pipeline (some new_val) s = (record s { pipeline = new_val }, true)

unfoldable pub set_udp_port : Option Text → RtspStreamConfig → RtspStreamConfig × Bool
set_udp_port none s = (record s { str_err = bytes "udpPort is empty" }, false)
set_udp_port (some new_val) s = (record s { udp_port = new_val }, true)

unfoldable pub set_tcp_port : Option Text → RtspStreamConfig → RtspStreamConfig × Bool
set_tcp_port none s = (record s { str_err = bytes "tcpPort is empty" }, false)
set_tcp_port (some new_val) s = (record s { tcp_port = new_val }, true)

unfoldable pub set_rtsp_url : Option Text → RtspStreamConfig → RtspStreamConfig × Bool
set_rtsp_url none s = (record s { str_err = bytes "rtspUrl is empty" }, false)
set_rtsp_url (some new_val) s = (record s { rtsp_url = new_val }, true)

-- An int, of which the bool keeps whether it is 0.
unfoldable pub set_test_stream : ℤ → RtspStreamConfig → RtspStreamConfig × Bool
set_test_stream new_val s = (record s { test_stream = not (eqb_ℤ new_val (pos 0)) }, true)

unfoldable pub set_test_stream_src : Option Text → RtspStreamConfig → RtspStreamConfig × Bool
set_test_stream_src none s = (record s { str_err = bytes "testStreamSrc is empty" }, false)
set_test_stream_src (some new_val) s = (record s { test_stream_src = new_val }, true)

-- Everything but the source of the test stream and the error text.
unfoldable pub clear : RtspStreamConfig → RtspStreamConfig
clear s = record s {
  pipeline = [];
  udp_port = [];
  tcp_port = [];
  rtsp_url = [];
  test_stream = false;
}

-- The constructor.
unfoldable pub new_config : RtspStreamConfig
unfolding clear
new_config = clear (record {
  pipeline = [];
  udp_port = [];
  tcp_port = [];
  rtsp_url = [];
  test_stream = false;
  test_stream_src = [];
  str_err = [];
})

unfoldable pub is_valid : RtspStreamConfig → Bool
is_valid s =
    not (is_empty s.pipeline)
    && not (is_empty s.udp_port)
    && not (is_empty s.tcp_port)
    && not (is_empty s.rtsp_url)

-- RTSPStream
pub record RtspStream : Type 0 where
  pub streams : StdMap RtspStreamConfig
  pub str_err : Text

unfoldable pub new_streams : RtspStream
new_streams = record { streams = []; str_err = [] }

unfoldable pub add_stream : RtspStreamConfig → RtspStream → RtspStream × Bool
add_stream s r =
    if not (is_valid s)
    then (record r { str_err = bytes "stream has unset parameters" }, false)
    else if is_some (find s.rtsp_url r.streams)
    then (record r { str_err = bytes "stream: " ++ (s.rtsp_url ++ bytes " already exists") }, false)
    else (record r { streams = assign s.rtsp_url s r.streams }, true)

-- getStream: `streams.count` and then `streams.at`.
unfoldable pub get_stream : Text → RtspStream → Option RtspStreamConfig
get_stream name r = find name r.streams

-- The launch text that the constructor of GStreamerRTSP builds.
unfoldable pub launch : RtspStreamConfig → Text
launch s =
    if s.test_stream
    then bytes "\"( " ++ (s.test_stream_src ++ s.pipeline)
    else bytes "\"( -v udpsrc port=" ++ (s.udp_port ++ s.pipeline)
