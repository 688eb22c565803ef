-- ===== src/Startup/Ready.antt =====
-- What holds of a program that has started.
mod Kept
use onvif_srvd_cmake.Prelude.{
  ℕ, Text, ℤ, some, true, List, [], ◌∷◌, ◌++◌, ◌≡◌, refl, ◌∙◌, Option-cases, arith, c_str, All,
  Bool-cases, inl, inr,
}
use onvif_srvd_cmake.Kernel.{Kernel}
use onvif_srvd_cmake.Eth.{EthDevParam, Ifreq, new_eth, open_dev, is_open, dev_name}
use onvif_srvd_cmake.Eth.Lifecycle.{IsValid, open_dev-IsOpening}
use onvif_srvd_cmake.Profile.{
  StreamProfile, set_name, set_width, set_height, set_url, set_snapurl, set_type, clear,
  new_profile,
}
use onvif_srvd_cmake.Profile.Setters.{
  HasDimensions, set_width-HasDimensions, set_height-HasDimensions,
}
use onvif_srvd_cmake.Context.{ServiceContext, add_profile, set_tz_format, tz_of}
use onvif_srvd_cmake.Prelude.Stream.{extract_unsigned}
use onvif_srvd_cmake.Context.Profiles.{IsWellFormed, add_profile-IsWellFormed}
use onvif_srvd_cmake.Rtsp
use onvif_srvd_cmake.Rtsp.{RtspStreamConfig, RtspStream, add_stream, new_config}
use onvif_srvd_cmake.Rtsp.Streams.{IsWellFormed as IsTable, add_stream-IsWellFormed}
use onvif_srvd_cmake.Daemon.{Daemon, DaemonInfo, is_valid, save_config}
use onvif_srvd_cmake.Startup.Filling.{Holds, Holds-map, Holds-both}
use onvif_srvd_cmake.Startup.Served.{IsServed, profiles_loop-IsServed}
use onvif_srvd_cmake.Startup.{
  Configuration, ProfileSetting, StreamSetting, Setup, exits, goes_on, Program, configure_profile,
  configure_stream, profiles_loop, streams_loop, started, add_streams, service_options,
  processing_cfg, daemon_info,
}
use onvif_srvd_cmake.Startup.Published.{IsPublished, streams_loop-IsPublished}
use Kept.{
  IsKept, clear-HasDimensions, profiles_loop-IsKept, set_tz_format-keeps, saved-is_valid,
  streams_loop-IsWellFormed,
}

-- The context of a program that has started.
abbrev IsConfigured : Configuration → List EthDevParam → List Text → ServiceContext → Type 0
IsConfigured cfg ifs scopes c = IsKept ifs scopes c × All (IsServed c) cfg.profiles

-- The interface is open under the name in the settings.
abbrev pub IsOpened : Configuration → EthDevParam → Type 0
IsOpened cfg eth =
    IsValid eth × (is_open eth ≡ true) × (some (c_str cfg.interfaces) ≡ some (dev_name eth))

settled :
    (cfg : Configuration) (old : ProfileSetting → ℤ × ℤ) (c : ServiceContext)
    (ifs : List EthDevParam) (scopes : List Text)
    → IsKept ifs scopes c
    → Holds (IsConfigured cfg ifs scopes) (profiles_loop old cfg.profiles new_profile c)
unfolding new_profile
settled cfg old c ifs scopes kept =
    Holds-both (IsKept ifs scopes) (λ c'. All (IsServed c') cfg.profiles)
      (profiles_loop old cfg.profiles new_profile c)
      (profiles_loop-IsKept old cfg.profiles new_profile c ifs scopes
        (clear-HasDimensions new_profile) kept)
      (profiles_loop-IsServed old cfg.profiles new_profile c)

published :
    (cfg : Configuration) (t : RtspStream)
    → IsTable t
    → Holds
        (λ t'. IsTable t' × All (IsPublished t') cfg.rtsp_streams)
        (streams_loop cfg.rtsp_streams new_config t)
published cfg t h =
    let loop = streams_loop cfg.rtsp_streams new_config t in
    Holds-both IsTable (λ t'. All (IsPublished t') cfg.rtsp_streams) loop
      (streams_loop-IsWellFormed cfg.rtsp_streams new_config t h)
      (streams_loop-IsPublished cfg.rtsp_streams new_config t)

module _ (k : Kernel) where
  -- A program that has started: profiles and streams are well formed, all of them from the settings
  -- found, the daemon has a valid configuration, and the scopes and the interface of the settings are
  -- added, the interface open under its name in the settings.
  pub record IsReady (cfg : Configuration) (c : ServiceContext) (p : Program k) : Type 0 where
    pub profiles : IsWellFormed p.service_ctx
    pub served : All (IsServed p.service_ctx) cfg.profiles
    pub streams : IsTable p.rtsp_streams
    pub published : All (IsPublished p.rtsp_streams) cfg.rtsp_streams
    pub config : is_valid p.onvif_daemon.daemon_config ≡ true
    pub scopes : p.service_ctx.scopes ≡ c.scopes ++ cfg.scopes
    pub interface :
        (eth : EthDevParam) × (p.service_ctx.eth_ifs ≡ c.eth_ifs ++ (eth ∷ [])) × IsOpened cfg eth

  module _ (cfg : Configuration) (before : ServiceContext) (d : Daemon) (eth : EthDevParam)
      (w : k.World) where
    module _ (valid : is_valid d.daemon_config ≡ true) (opening : IsOpened cfg eth) where
      started-IsReady :
          (c : ServiceContext) (r : Setup RtspStream)
          → IsConfigured cfg (before.eth_ifs ++ (eth ∷ [])) (before.scopes ++ cfg.scopes) c
          → Holds (λ t. IsTable t × All (IsPublished t) cfg.rtsp_streams) r
          → Holds (IsReady cfg before) (started k c d w r)
      started-IsReady c (exits r) kept h = tt
      started-IsReady c (goes_on t) ((wf, e, u), served) h = record {
        profiles = wf;
        served = served;
        streams = h.0;
        published = h.1;
        config = valid;
        scopes = u;
        interface = (eth, e, opening);
      }

      add_streams-IsReady :
          (t : RtspStream) (r : Setup ServiceContext)
          → IsTable t
          → Holds (IsConfigured cfg (before.eth_ifs ++ (eth ∷ [])) (before.scopes ++ cfg.scopes)) r
          → Holds (IsReady cfg before) (add_streams k cfg d t w r)
      unfolding add_streams
      add_streams-IsReady t (exits r) h kept = tt
      add_streams-IsReady t (goes_on c) h kept =
          started-IsReady c (streams_loop cfg.rtsp_streams new_config t) kept (published cfg t h)

  -- From a well-formed context and table processing_cfg either exits or goes on with both well formed,
  -- every profile of the settings found under its name with its URLs, every stream of them under its
  -- URL with its port and launch text, a valid configuration of the daemon, the scopes of the settings
  -- added, and the interface of the settings added and open.
  pub processing_cfg-IsReady :
      (junk : Ifreq) (old_tz : ℕ) (old : ProfileSetting → ℤ × ℤ) (cfg : Configuration)
      (p : Program k)
      → IsWellFormed p.service_ctx
      → IsTable p.rtsp_streams
      → Holds (IsReady cfg p.service_ctx) (processing_cfg k junk old_tz old cfg p)
  unfolding processing_cfg service_options new_profile
  processing_cfg-IsReady junk old_tz old cfg p wf table =
      let d = save_config (daemon_info cfg) p.onvif_daemon in
      let c1 = service_options cfg p.service_ctx in
      let o = open_dev k (some (c_str cfg.interfaces)) (new_eth junk) p.world in
      let c2 = record c1 { eth_ifs = c1.eth_ifs ++ (o.1 ∷ []) } in
      let tz = set_tz_format old_tz (c_str cfg.tz_format) c2 in
      let (valid, either) =
        open_dev-IsOpening k (some (c_str cfg.interfaces)) (new_eth junk) p.world in
      elim (Bool-cases d.1) [
        | inl saved ↦ elim either [
          | inl (zero, opened, named) ↦ elim (Bool-cases tz.1) [
            | inl known ↦
                rw (saved, zero, known, processing_cfg)
                  (add_streams-IsReady cfg p.service_ctx d.0 o.1 o.2
                    (saved-is_valid (daemon_info cfg) p.onvif_daemon saved) (valid, opened, named)
                    p.rtsp_streams (profiles_loop old cfg.profiles new_profile tz.0) table
                    (settled cfg old tz.0 c2.eth_ifs c2.scopes (
                      set_tz_format-keeps old_tz (c_str cfg.tz_format) c2 c2.eth_ifs c2.scopes
                        (record { sorted = wf.sorted; stored = wf.stored }, refl, refl))))
            | inr unknown ↦ rw (saved, zero, unknown, processing_cfg) tt
          ]
          | inr (failed, _) ↦ rw (saved, failed, processing_cfg) tt
        ]
        | inr unset ↦ rw (unset, processing_cfg) tt
      ]
