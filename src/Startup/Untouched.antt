-- ===== src/Startup/Untouched.antt =====
-- What processing_cfg leaves as it was: no setting is for the PTZ node.
use onvif_srvd_cmake.Prelude.{
  ℕ, Text, ℤ, some, Bool, true, false, List, [], ◌∷◌, ◌++◌, ◌≡◌, refl, ◌∙◌, not, pos, eqb_ℤ, c_str,
  arith, if◌then◌else◌,
}
use onvif_srvd_cmake.Kernel.{Kernel}
use onvif_srvd_cmake.Eth.{Ifreq, new_eth, open_dev}
use onvif_srvd_cmake.Profile.{StreamProfile, clear, new_profile}
use onvif_srvd_cmake.PtzNode.{PtzNode}
use onvif_srvd_cmake.Context.{ServiceContext, add_profile, set_tz_format}
use onvif_srvd_cmake.Rtsp.{RtspStream, new_config}
use onvif_srvd_cmake.Daemon.{Daemon, save_config}
use onvif_srvd_cmake.Startup.{
  ProfileSetting, Configuration, Setup, exits, goes_on, Reason, cannot_save_daemon, cannot_open,
  cannot_set_tz, Program, configure_profile, profiles_loop, started, add_streams, streams_loop,
  daemon_info, service_options, processing_cfg,
}
use onvif_srvd_cmake.Startup.Filling.{Holds, Holds-map}

add_profile-ptz_node :
    (q : StreamProfile) (c : ServiceContext) → (add_profile q c).0.ptz_node ≡ c.ptz_node
unfolding add_profile
add_profile-ptz_node q c = ground arith

set_tz_format-ptz_node :
    (o : ℕ) (t : Text) (c : ServiceContext) → (set_tz_format o t c).0.ptz_node ≡ c.ptz_node
unfolding set_tz_format
set_tz_format-ptz_node o t c = ground arith

-- A test before an exit does not matter.
Holds-guard :
    {A : Type 0} (P : A → Type 0) (b : Bool) (r : Reason) (x : Setup A)
    → Holds P x
    → Holds P (if b then exits r else x)
Holds-guard P true r x h = tt
Holds-guard P false r x h = h

profiles_loop-ptz_node :
    (old : ProfileSetting → ℤ × ℤ) (ss : List ProfileSetting) (p : StreamProfile)
    (c : ServiceContext)
    → Holds (λ c'. c'.ptz_node ≡ c.ptz_node) (profiles_loop old ss p c)
unfolding profiles_loop
profiles_loop-ptz_node old [] p c = refl
profiles_loop-ptz_node old (s ∷ ss) p c =
    let q = configure_profile old s p in
    let c' = (add_profile q c).0 in
    let rest = profiles_loop old ss (clear q) c' in
    Holds-guard (λ d. d.ptz_node ≡ c.ptz_node) _ _ rest
      (Holds-map (λ d. d.ptz_node ≡ c'.ptz_node) (λ d. d.ptz_node ≡ c.ptz_node) rest
        (λ d same. same ∙ add_profile-ptz_node q c) (profiles_loop-ptz_node old ss (clear q) c'))

module _ (k : Kernel) where
  abbrev pub HasNode : PtzNode → Program k → Type 0
  HasNode n p = p.service_ctx.ptz_node ≡ n

  started-HasNode :
      (n : PtzNode) (c : ServiceContext) (d : Daemon) (w : k.World) (r : Setup RtspStream)
      → c.ptz_node ≡ n
      → Holds (HasNode n) (started k c d w r)
  started-HasNode n c d w (exits e) h = tt
  started-HasNode n c d w (goes_on t) h = h

  add_streams-HasNode :
      (n : PtzNode) (cfg : Configuration) (d : Daemon) (t : RtspStream) (w : k.World)
      (r : Setup ServiceContext)
      → Holds (λ c. c.ptz_node ≡ n) r
      → Holds (HasNode n) (add_streams k cfg d t w r)
  unfolding add_streams
  add_streams-HasNode n cfg d t w (exits e) h = tt
  add_streams-HasNode n cfg d t w (goes_on c) h =
      started-HasNode n c d w (streams_loop cfg.rtsp_streams new_config t) h

  pub processing_cfg-HasNode :
      (junk : Ifreq) (old_tz : ℕ) (old : ProfileSetting → ℤ × ℤ) (cfg : Configuration)
      (p : Program k)
      → Holds (HasNode p.service_ctx.ptz_node) (processing_cfg k junk old_tz old cfg p)
  unfolding processing_cfg service_options
  processing_cfg-HasNode junk old_tz old cfg p =
      let P = HasNode p.service_ctx.ptz_node in
      let (d, saved) = save_config (daemon_info cfg) p.onvif_daemon in
      let c1 = service_options cfg p.service_ctx in
      let o = open_dev k (some (c_str cfg.interfaces)) (new_eth junk) p.world in
      let c2 = record c1 { eth_ifs = c1.eth_ifs ++ (o.1 ∷ []) } in
      let (c3, known) = set_tz_format old_tz (c_str cfg.tz_format) c2 in
      let profiles = profiles_loop old cfg.profiles new_profile c3 in
      let added = add_streams k cfg d p.rtsp_streams o.2 profiles in
      let zoned = if not known then exits (cannot_set_tz c3.str_err) else added in
      let opened =
        if not (eqb_ℤ o.0 (pos 0)) then exits (cannot_open (c_str cfg.interfaces)) else zoned in
      Holds-guard P (not saved) (cannot_save_daemon p.service_ctx.str_err) opened (
        Holds-guard P (not (eqb_ℤ o.0 (pos 0))) (cannot_open (c_str cfg.interfaces)) zoned (
          Holds-guard P (not known) (cannot_set_tz c3.str_err) added (
            add_streams-HasNode p.service_ctx.ptz_node cfg d p.rtsp_streams o.2 profiles (
              Holds-map (λ c. c.ptz_node ≡ c3.ptz_node) (λ c. c.ptz_node ≡ p.service_ctx.ptz_node)
                profiles (λ c same. same ∙ set_tz_format-ptz_node old_tz (c_str cfg.tz_format) c2)
                (profiles_loop-ptz_node old cfg.profiles new_profile c3)))))
