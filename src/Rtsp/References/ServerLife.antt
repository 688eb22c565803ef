-- ===== src/Rtsp/References/ServerLife.antt =====
-- What GStreamerRTSP of src/rtsp-streams.hpp does with its three handles, over the GStreamer
-- functions as they are documented: gst_rtsp_server_new, gst_rtsp_server_get_mount_points and
-- gst_rtsp_media_factory_new give the caller a reference; gst_rtsp_mount_points_add_factory takes
-- the caller's reference of the factory over; gst_rtsp_server_attach makes a source that holds a
-- reference of the server until it is destroyed, which nothing in the file does, or fails and
-- takes none.
use onvif_srvd_cmake.Prelude.{Bool, if◌then◌else◌, ℕ, List, [], ◌∷◌, ◌++◌}
use onvif_srvd_cmake.Rtsp.References.{Counts, ref}
use onvif_srvd_cmake.Rtsp.References.Histories.{
  get, Store, HandleOp, default_construct, adopt, destroys, attaches, move_to, run, no_handles,
}

-- The handles of GStreamerRTSP: factory, mounts and server, numbered in this order, with a temporary
-- one for each call that makes an object. `attached` says that gst_rtsp_server_attach made a source.
-- Calls that take or give no reference are left out.
unfoldable pub construct_server : Bool → ℕ → ℕ → ℕ → List HandleOp
construct_server attached server mounts factory =
    default_construct
    ∷ default_construct
    ∷ default_construct
    ∷ adopt server
    ∷ move_to 2 3
    ∷ destroys 3
    ∷ adopt mounts
    ∷ move_to 1 4
    ∷ destroys 4
    ∷ adopt factory
    ∷ move_to 0 5
    ∷ destroys 5
    ∷ (if attached then attaches 2 ∷ [] else [])

-- The reference that gst_rtsp_mount_points_add_factory takes over: a pointer of the handle, which
-- changes no count.
unfoldable pub add_factory : Store → Counts
unfolding ref get
add_factory s = ref (get 0 s.handles) (λ _. 0)

-- The members are destroyed in the reverse order of their declaration.
unfoldable pub destruct_server : List HandleOp
destruct_server = destroys 2 ∷ destroys 1 ∷ destroys 0 ∷ []

-- The store behind the constructor, and that behind the destructor.
abbrev pub server_made : Bool → Counts → ℕ → ℕ → ℕ → Store
server_made attached rest server mounts factory =
    run (construct_server attached server mounts factory) (no_handles rest)

abbrev pub server_life : Bool → Counts → ℕ → ℕ → ℕ → Store
server_life attached rest server mounts factory =
    run (construct_server attached server mounts factory ++ destruct_server) (no_handles rest)
