-- ===== src/Daemon/Process/Steps.antt =====
-- The steps of a process that becomes a daemon.
use onvif_srvd_cmake.Prelude.{
  ℕ, true, false, not, List, [], ◌∷◌, ◌++◌, ◌≡◌, ap, refl, arith, is_empty, Bool-cases, inl, inr,
  if◌then◌else◌, eqb_ℤ, pos,
}
use onvif_srvd_cmake.Daemon.{DaemonInfo, is_valid}
use onvif_srvd_cmake.Daemon.Process.{
  Posix, Outcome, exited, running, then_run, or_exit, do_fork, redirect_stdio_to_devnull,
  daemonize_calls, daemonize2, mark, create_pid_file,
}

-- What the header of the program calls becoming a daemon, one step each.
pub data Step : Type 0 where
  background clear_umask own_session root_directory initialise silence : Step

-- The steps that a configuration asks for, in their order; none of them is the pid file.
abbrev pub steps : DaemonInfo → List Step
steps c =
    (if c.no_fork then [] else background ∷ [])
    ++ (clear_umask ∷ (if c.no_fork then [] else own_session ∷ [])
        ++ ((if c.no_chdir then [] else root_directory ∷ [])
            ++ (initialise ∷ (if c.no_close_stdio then [] else silence ∷ []))))

module _ (p : Posix) where
  open p use {World}

  abbrev pub run_step : Step → World → Outcome World
  run_step background w = do_fork p w
  run_step clear_umask w = running (p.umask w)
  run_step own_session w = or_exit p (p.setsid w)
  run_step root_directory w = or_exit p (p.chdir w)
  run_step initialise w = running (p.init w)
  run_step silence w =
      let (ret, w') = redirect_stdio_to_devnull p w in or_exit p (eqb_ℤ ret (pos 0), w')

  abbrev pub run : List Step → World → Outcome World
  run [] w = running w
  run (s ∷ []) w = run_step s w
  run (s ∷ t ∷ ss) w = then_run p (run_step s w) (run (t ∷ ss))

  calls-run :
      (c : DaemonInfo) (w : World)
      → is_empty c.pid_file ≡ false
      → daemonize_calls p c w ≡ run (steps c) w
  unfolding daemonize_calls
  calls-run c w named = elim (Bool-cases c.no_fork) [
    | inl nf ↦ elim (Bool-cases c.no_chdir) [
      | inl nc ↦ elim (Bool-cases c.no_close_stdio) [
        | inl ns ↦ rw (named, nf, nc, ns, daemonize_calls) refl
        | inr ns ↦ rw (named, nf, nc, ns, daemonize_calls) refl
      ]
      | inr nc ↦ elim (Bool-cases c.no_close_stdio) [
        | inl ns ↦ rw (named, nf, nc, ns, daemonize_calls) refl
        | inr ns ↦ rw (named, nf, nc, ns, daemonize_calls) refl
      ]
    ]
    | inr nf ↦ elim (Bool-cases c.no_chdir) [
      | inl nc ↦ elim (Bool-cases c.no_close_stdio) [
        | inl ns ↦ rw (named, nf, nc, ns, daemonize_calls) refl
        | inr ns ↦ rw (named, nf, nc, ns, daemonize_calls) refl
      ]
      | inr nc ↦ elim (Bool-cases c.no_close_stdio) [
        | inl ns ↦ rw (named, nf, nc, ns, daemonize_calls) refl
        | inr ns ↦ rw (named, nf, nc, ns, daemonize_calls) refl
      ]
    ]
  ]

  -- With a valid configuration daemonize2 runs the steps that it asks for, in their order, up to the
  -- first that exits, and marks the daemon in the process that goes on. No pid file is made.
  pub daemonize2-steps :
      (c : DaemonInfo) (w : World)
      → is_valid c ≡ true
      → daemonize2 p c w ≡ mark p c (run (steps c) w)
  unfolding daemonize2 is_valid
  daemonize2-steps c w v = ap (mark p c) (calls-run c w (ground arith))

  abbrev Exits : Outcome World → Type 0
  Exits o = (s : ℕ) × (v : World) × (o ≡ exited s v)

  then_run-Exits :
      (o : Outcome World) (f : World → Outcome World)
      → ((w : World) → Exits (f w))
      → Exits (then_run p o f)
  then_run-Exits (exited s w) f h = (s, w, refl)
  then_run-Exits (running w) f h = h w

  calls-Exits :
      (c : DaemonInfo) (w : World) → is_empty c.pid_file ≡ true → Exits (daemonize_calls p c w)
  unfolding daemonize_calls create_pid_file
  calls-Exits c w unnamed =
      rw (unnamed, daemonize_calls)
        (then_run-Exits (if not c.no_fork then do_fork p w else running w) _ (λ w1.
          then_run-Exits
            (if not c.no_fork then or_exit p (p.setsid (p.umask w1)) else running (p.umask w1)) _
            (λ w2.
              then_run-Exits (if not c.no_chdir then or_exit p (p.chdir w2) else running w2) _
                (λ w3. (1, w3, refl)))))

  -- Without a pid file no process goes on: each exits, and none is marked as a daemon.
  pub daemonize2_unnamed :
      (c : DaemonInfo) (w : World)
      → is_empty c.pid_file ≡ true
      → (s : ℕ) × (v : World) × (daemonize2 p c w ≡ (c, exited s v))
  unfolding daemonize2
  daemonize2_unnamed c w unnamed =
      let (s, v, e) = calls-Exits c w unnamed in (s, v, ap (mark p c) e)
