-- ===== src/Command/Start.antt =====
-- The start of serve in cmd/pullpilot/main.go.
use pullpilot.Prelude.{◌≡◌, ap, ◌∙◌, Bool, true, false, inl, inr, Bool-cases}
use pullpilot.Prelude.Exec.{Result, ok, err}
use pullpilot.Boot.{System, Failure, Built, build}
use pullpilot.Command.{Serving, serve_built, set_up}

module _ {W : Type 0} (sys : System W) where
  -- serve has come to where it waits.
  abbrev pub has_started : Result Failure (Serving sys) → Bool
  has_started (ok s) = true
  has_started (err x) = false

  serve_built-starts :
      (b : Built W) (w : W)
      → has_started (serve_built sys (ok b) w).0 ≡ sys.valid_schedule b.cfg.schedule
  unfolding serve_built
  serve_built-starts b w = elim (Bool-cases (sys.valid_schedule b.cfg.schedule)) [
    | inl valid ↦ rw (valid, serve_built)
    | inr bad ↦ rw (bad, serve_built)
  ]

  serve_built_result :
      (x : Result Failure (Built W)) (w : W) (b : Built W)
      → x ≡ ok b
      → has_started (serve_built sys x w).0 ≡ sys.valid_schedule b.cfg.schedule
  serve_built_result (err y) w b h = cc h
  serve_built_result (ok a) w b h =
      let same : a ≡ b = cc h in
      serve_built-starts a w ∙ ap (λ (z : Built W). sys.valid_schedule z.cfg.schedule) same

  -- Once the configuration, the bookkeeping and the engine are built, serve starts exactly if cron
  -- takes the schedule: neither a Docker that does not answer nor a webhook that cannot be set up
  -- keeps it from starting.
  pub set_up-starts :
      (w : W) (b : Built W)
      → (build sys true w).0 ≡ ok b
      → has_started (set_up sys w).0 ≡ sys.valid_schedule b.cfg.schedule
  unfolding set_up
  set_up-starts w b h = serve_built_result (build sys true w).0 (build sys true w).1 b h
