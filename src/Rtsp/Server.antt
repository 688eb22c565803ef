-- ===== src/Rtsp/Server.antt =====
-- GStreamerRTSP and GStreamerRTSPLoop of src/rtsp-streams.hpp: the calls that set up the server of one
-- stream, and those that end it. GStreamer's answers are not looked at, but for messages.
use onvif_srvd_cmake.Prelude.{ℕ, Text, Option, none, some, Bool, true, List, [], ◌∷◌, c_str}
use onvif_srvd_cmake.Rtsp.{RtspStreamConfig, launch}

pub data GstCall : Type 0 where
  gst_init_check g_main_loop_new gst_rtsp_server_new get_mount_points media_factory_new : GstCall
  set_service set_launch add_factory : Text → GstCall
  set_shared : Bool → GstCall
  server_attach start_loop_thread g_main_loop_run g_main_loop_quit stop_loop_thread : GstCall

-- The constructor.
unfoldable pub gstreamer_rtsp : RtspStreamConfig → List GstCall
unfolding launch
gstreamer_rtsp stream =
    gst_init_check
    ∷ g_main_loop_new
    ∷ gst_rtsp_server_new
    ∷ set_service (c_str stream.tcp_port)
    ∷ get_mount_points
    ∷ media_factory_new
    ∷ set_launch (c_str (launch stream))
    ∷ set_shared true
    ∷ add_factory (c_str stream.rtsp_url)
    ∷ server_attach
    ∷ start_loop_thread
    ∷ []

-- The destructor.
unfoldable pub destroy_rtsp : List GstCall
destroy_rtsp = g_main_loop_quit ∷ stop_loop_thread ∷ []

-- GStreamerRTSPLoop::work; it runs the loop if there is one, and asks to be called again.
unfoldable pub loop_work {ℓ} : {L : Type ℓ} → Option L → ℕ × List GstCall
loop_work none = (1, [])
loop_work (some loop) = (1, g_main_loop_run ∷ [])
