-- ===== src/Startup/Main/Service.antt =====
-- A started program can serve: the instance of gSOAP takes its context.
use mathlib.Core.Path.{subst}
use onvif_srvd_cmake.Prelude.{
  ℕ, Text, ℤ, Option, none, Bool, true, List, [], ◌∷◌, ◌≡◌, ◌≢◌, refl, c_str, sym, ◌∙◌, ap, All,
}
use onvif_srvd_cmake.Prelude.StdMap.{find}
use onvif_srvd_cmake.Kernel.{Kernel}
use onvif_srvd_cmake.Eth.{Ifreq}
use onvif_srvd_cmake.Context.{ServiceContext, new_context}
use onvif_srvd_cmake.Context.Profiles.{new_context-IsWellFormed}
use onvif_srvd_cmake.Rtsp.Streams.{new_streams-IsWellFormed}
use onvif_srvd_cmake.GSoap.{made, gsoap_instance}
use onvif_srvd_cmake.GSoap.Rounds.{gsoap_instance-made_iff}
use onvif_srvd_cmake.Startup.{ProfileSetting, Configuration, Setup, Program, processing_cfg}
use onvif_srvd_cmake.Startup.Filling.{Holds-map}
use onvif_srvd_cmake.Startup.Served.{IsServed}
use onvif_srvd_cmake.Startup.Ready.{IsReady, processing_cfg-IsReady}
use onvif_srvd_cmake.Startup.Loading.{Settings, load_configuration}
use onvif_srvd_cmake.Startup.Loading.Loader.{LibConfig, loaded}
use onvif_srvd_cmake.Startup.Main.{start_with, main_start, settings_read, new_program}
use onvif_srvd_cmake.Startup.Main.Serving.{WhileRunning, threads-WhileRunning}

cons_not_nil {ℓ} : {A : Type ℓ} {x : A} {xs : List A} → (x ∷ xs) ≢ []
cons_not_nil h = cc

has_profiles :
    (c : ServiceContext) (ps : List ProfileSetting)
    → ps ≢ []
    → All (IsServed c) ps
    → c.profiles ≢ []
unfolding find
has_profiles c [] some_one h empty = some_one refl
has_profiles c (p ∷ ps) some_one ((q, found, _), hs) empty =
    let missing : find (c_str p.name) c.profiles ≡ none = ap (find (c_str p.name)) empty in
    absurd cc

module _ (k : Kernel) (l : LibConfig) (bind : ℤ → Bool) where
  -- The instance of gSOAP is made, and holds the context of the program.
  abbrev pub IsServing : Program k → Type 0
  IsServing p = gsoap_instance true bind p.service_ctx ≡ made p.service_ctx

  ready-IsServing :
      (cfg : Configuration)
      → ((port : ℤ) → bind port ≡ true)
      → cfg.scopes ≢ []
      → cfg.profiles ≢ []
      → (p : Program k) → IsReady k cfg new_context p
      → IsServing p
  unfolding new_context
  ready-IsServing cfg binds scopes profiles p ready =
      let (eth, added, _) = ready.interface in
      (gsoap_instance-made_iff true bind p.service_ctx).1 (
        refl,
        binds p.service_ctx.port,
        λ empty. cons_not_nil (sym added ∙ empty),
        λ empty. scopes (sym ready.scopes ∙ empty),
        has_profiles p.service_ctx cfg.profiles profiles ready.served,
      )

  -- A program that runs with at least one scope and one profile in its settings, from a file or
  -- without one, has a context that gSOAP takes: where gSOAP has a context of its own and can bind the
  -- port, the instance is made with that context.
  pub main_start-IsServing :
      (junk : Ifreq) (old_tz : ℕ) (old : ProfileSetting → ℤ × ℤ) (freed : Text → Text) (w : k.World)
      (file : Option Text) (s : Settings)
      → ((port : ℤ) → bind port ≡ true)
      → load_configuration l file ≡ loaded s
      → s.configuration.scopes ≢ []
      → s.configuration.profiles ≢ []
      → WhileRunning k l IsServing (main_start k l junk old_tz old freed w file)
  unfolding main_start start_with settings_read
  main_start-IsServing junk old_tz old freed w file s binds read scopes profiles =
      let cfg : Configuration = settings_read freed s in
      let start : Setup (Program k) = processing_cfg k junk old_tz old cfg (new_program k l w) in
      subst (λ x. WhileRunning k l IsServing (start_with k l junk old_tz old freed w x)) (sym read)
        (threads-WhileRunning k l IsServing start (
          Holds-map (IsReady k cfg new_context) IsServing start
            (ready-IsServing cfg binds scopes profiles)
            (processing_cfg-IsReady k junk old_tz old cfg (new_program k l w)
              new_context-IsWellFormed new_streams-IsWellFormed)))
