-- ===== src/Startup/Main/Motionless.antt =====
-- What is left of the PTZ service in a program that main has started: the settings have none for it.
use mathlib.Core.Path.{subst}
use onvif_srvd_cmake.Prelude.{
  ℕ, Text, ℤ, Option, none, Bool, false, List, [], ◌∷◌, ◌≡◌, refl, ap, ◌∙◌, ◌&&◌, All, any, str_eq,
  is_some, c_str,
}
use onvif_srvd_cmake.Prelude.Substring.{str_find}
use onvif_srvd_cmake.Kernel.{Kernel}
use onvif_srvd_cmake.Eth.{Ifreq}
use onvif_srvd_cmake.PtzNode.{new_ptz_node}
use onvif_srvd_cmake.Context.{ServiceContext, new_context}
use onvif_srvd_cmake.Context.Servers.{get_x_addr}
use onvif_srvd_cmake.Soap.{Effect, system, usleep, publish}
use onvif_srvd_cmake.Ptz.{Floats}
use onvif_srvd_cmake.Device.{
  CapabilityCategory, all, wants_ptz, or_all, ptz_namespace, handle_get_services,
  handle_get_capabilities,
}
use onvif_srvd_cmake.Device.Discovery.{
  announced, handle_get_capabilities-any, handle_get_services-capabilities,
}
use onvif_srvd_cmake.Services.{
  PtzRequest, get_profiles, Request, to_ptz, Surroundings, handle, session,
}
use onvif_srvd_cmake.Services.Effects.{
  IsConfigured, move_left, move_right, move_up, move_down, move_stop, preset, IsMove,
  handle-Permitted,
}
use onvif_srvd_cmake.Services.History.{session-erase}
use onvif_srvd_cmake.Startup.{ProfileSetting, Configuration, Setup, Program, processing_cfg}
use onvif_srvd_cmake.Startup.Untouched.{HasNode, processing_cfg-HasNode}
use onvif_srvd_cmake.Startup.Filling.{Holds-map}
use onvif_srvd_cmake.Startup.Loading.{Settings, load_configuration}
use onvif_srvd_cmake.Startup.Loading.Loader.{LibConfig, Loaded, throws, loaded}
use onvif_srvd_cmake.Startup.Main.{start_with, main_start, settings_read, new_program}
use onvif_srvd_cmake.Startup.Main.Serving.{WhileRunning, threads-WhileRunning}

module _ (k : Kernel) where
  module _ (f : Floats) (at : Surroundings k f) where
    -- An effect of a moved camera that moves nothing: an empty command, or a pause.
    abbrev pub IsIdle : Effect → Type 0
    IsIdle (system command) = command ≡ []
    IsIdle (usleep time) = Unit
    IsIdle (publish topic msg) = ⊥

    idle_command : (command : Text) → IsConfigured new_ptz_node command → command ≡ []
    unfolding new_ptz_node c_str str_find
    idle_command _ move_left = refl
    idle_command _ move_right = refl
    idle_command _ move_up = refl
    idle_command _ move_down = refl
    idle_command _ move_stop = refl
    idle_command _ (preset token) = refl

    all_idle : (es : List Effect) → All (IsMove new_ptz_node) es → All IsIdle es
    all_idle [] h = tt
    all_idle (system command ∷ es) (h, hs) = (idle_command command h, all_idle es hs)
    all_idle (usleep time ∷ es) (h, hs) = (tt, all_idle es hs)
    all_idle (publish topic msg ∷ es) (h, hs) = absurd h

    -- The PTZ service is not announced, and no request to it runs a command.
    pub record IsMotionless (c : ServiceContext) : Type 0 where
      pub unlisted :
          (include : Bool)
          → any
              (λ s. str_eq s.namespace ptz_namespace)
              (handle_get_services k at.junk at.soap_ip at.world include c).1
            ≡ false
      pub undescribed :
          (cs : List CapabilityCategory)
          → (handle_get_capabilities k at.junk at.soap_ip at.world cs c).1.ptz ≡ none
      pub idle : (r : PtzRequest k f) → All IsIdle (handle k f at c (to_ptz r)).effects

    no_description :
        (c : ServiceContext) (cs : List CapabilityCategory)
        → c.ptz_node ≡ new_ptz_node
        → (handle_get_capabilities k at.junk at.soap_ip at.world cs c).1.ptz ≡ none
    unfolding new_ptz_node
    no_description c cs same =
        (handle_get_capabilities-any k at.junk at.soap_ip at.world cs c).2
        ∙ ap
            (λ n.
              announced (n.enable && any wants_ptz (or_all cs))
                (get_x_addr k at.junk at.soap_ip at.world c).0)
            same

    new_node-IsMotionless : (c : ServiceContext) → c.ptz_node ≡ new_ptz_node → IsMotionless c
    new_node-IsMotionless c same = record {
      unlisted = λ include.
          (handle_get_services-capabilities k at.junk at.soap_ip at.world include c).0
          ∙ ap is_some (no_description c (all ∷ []) same);
      undescribed = λ cs. no_description c cs same;
      idle = λ r. all_idle (handle k f at c (to_ptz r)).effects (
          subst (λ n. All (IsMove n) (handle k f at c (to_ptz r)).effects) same
            (handle-Permitted k f at c get_profiles r).1);
    }

    module _ (l : LibConfig) (rs : List (Surroundings k f × Request k f)) (junk : Ifreq)
        (old_tz : ℕ) (old : ProfileSetting → ℤ × ℤ) (freed : Text → Text) (w : k.World) where
      abbrev pub StaysMotionless : Program k → Type 0
      StaysMotionless p = IsMotionless (session k f rs p.service_ctx)

      started-StaysMotionless : (p : Program k) → HasNode k new_ptz_node p → StaysMotionless p
      started-StaysMotionless p same =
          new_node-IsMotionless (session k f rs p.service_ctx)
            (ap (λ c. c.ptz_node) (session-erase k f rs p.service_ctx) ∙ same)

      start_with-StaysMotionless :
          (x : Loaded Settings)
          → WhileRunning k l StaysMotionless (start_with k l junk old_tz old freed w x)
      unfolding start_with settings_read new_context
      start_with-StaysMotionless (throws e) = tt
      start_with-StaysMotionless (loaded s) =
          let cfg : Configuration = settings_read freed s in
          let start : Setup (Program k) =
            processing_cfg k junk old_tz old cfg (new_program k l w) in
          threads-WhileRunning k l StaysMotionless start (
            Holds-map (HasNode k new_ptz_node) StaysMotionless start started-StaysMotionless
              (processing_cfg-HasNode k junk old_tz old cfg (new_program k l w)))

      -- No settings make a program that moves the camera: whatever the file, if the program runs, then
      -- behind any session the PTZ service is not among the services, no list of categories gets it
      -- described, and what a request to it runs is empty commands.
      pub main_start-StaysMotionless :
          (file : Option Text)
          → WhileRunning k l StaysMotionless (main_start k l junk old_tz old freed w file)
      unfolding main_start
      main_start-StaysMotionless file = start_with-StaysMotionless (load_configuration l file)
