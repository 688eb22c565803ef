-- ===== src/Startup/Main/Threads.antt =====
-- What the threads of the streams serve.
use mathlib.Core.Path.{ap₂}
use onvif_srvd_cmake.Prelude.{Text, List, [], ◌∷◌, ◌≡◌, refl, map, c_str}
use onvif_srvd_cmake.Prelude.StdMap.{StdMap, Every}
use onvif_srvd_cmake.Rtsp.{RtspStreamConfig, RtspStream, launch}
use onvif_srvd_cmake.Rtsp.Streams.{IsStored, IsWellFormed}
use onvif_srvd_cmake.Rtsp.Server.{GstCall, set_service, set_launch, add_factory, gstreamer_rtsp}
use onvif_srvd_cmake.Startup.Main.{thread_streams}

-- The port, the launch text and the path of what a thread mounts: a path is mounted with the port and
-- the text that were set last before it.
abbrev pub mounted : Text → Text → List GstCall → List (Text × Text × Text)
mounted port text [] = []
mounted port text (set_service new ∷ cs) = mounted new text cs
mounted port text (set_launch new ∷ cs) = mounted port new cs
mounted port text (add_factory path ∷ cs) = (port, text, path) ∷ mounted port text cs
mounted port text (_ ∷ cs) = mounted port text cs

-- What the table asks for.
abbrev pub asked_for : StdMap RtspStreamConfig → List (List (Text × Text × Text))
asked_for [] = []
asked_for ((url, s) ∷ rest) =
    ((c_str s.tcp_port, c_str (launch s), c_str url) ∷ []) ∷ asked_for rest

all_mounted :
    (m : StdMap RtspStreamConfig)
    → Every IsStored m
    → map (λ s. mounted [] [] (gstreamer_rtsp s)) (thread_streams m) ≡ asked_for m
unfolding thread_streams gstreamer_rtsp
all_mounted [] h = refl
all_mounted ((url, s) ∷ rest) (stored, h) =
    ap₂ (λ path others. ((c_str s.tcp_port, c_str (launch s), c_str path) ∷ []) ∷ others)
      stored.named (all_mounted rest h)

-- Each stream of a well-formed table gets one thread, in the order of the table, and that thread
-- mounts one path: the URL under which the stream is stored, on its TCP port, with its launch text.
pub thread_streams-mounted :
    (t : RtspStream)
    → IsWellFormed t
    → map (λ s. mounted [] [] (gstreamer_rtsp s)) (thread_streams t.streams) ≡ asked_for t.streams
thread_streams-mounted t w = all_mounted t.streams w.stored
