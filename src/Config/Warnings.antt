-- ===== src/Config/Warnings.antt =====
-- The warnings of Load in internal/config/config.go.
use mathlib.Core.List.{append_assoc, append-nil}
use pullpilot.Prelude.{
  ℕ, ◌*◌, ◌≡◌, refl, sym, ap, ◌∙◌, Bool, false, Option, none, some, List, [], ◌∷◌, ◌++◌,
  if◌then◌else◌, Bool-cases, Option-cases, inl, inr,
}
use pullpilot.Prelude.Int.{ℤ, pos}
use pullpilot.Prelude.Exec.{ok}
use pullpilot.Std.Str.{Str, bytes, is_empty}
use pullpilot.Std.Dict.{Dict, lookup}
use pullpilot.Std.Num.{minute, hour}
use pullpilot.Config.{
  Warning, bad_duration, bad_boolean, Scope, Config, parse_bool, parse_scope, unknown_vars, env,
  config_duration, dur_of, bool_of, read_config, load,
}

module _ (fraction : ℕ → ℕ → ℕ → ℕ) (environ : Dict Str) where
  -- A variable that is set, is not empty and does not parse.
  complaint : {A : Type 0} → (Str → Option A) → (Str → Warning) → Option Str → List Warning
  complaint parse warn none = []
  complaint parse warn (some v) =
      if is_empty v then [] else elim (parse v) [ some a ↦ [] | none ↦ warn v ∷ [] ]

  about_duration : Str → ℤ → List Warning
  unfolding complaint
  about_duration key def =
      complaint (config_duration fraction environ) (λ v. bad_duration key v def)
        (lookup key environ)

  about_boolean : Str → List Warning
  about_boolean key = complaint parse_bool (λ v. bad_boolean key v false) (lookup key environ)

  -- All complaints, in the order of the variables in Load.
  pub complaints : List Warning
  complaints =
      about_duration (bytes "PP_JITTER") (pos (30 * minute))
      ++ about_duration (bytes "PP_SOAK") (pos (24 * hour))
      ++ about_boolean (bytes "PP_SELF_UPDATE")
      ++ about_boolean (bytes "PP_CLEANUP")
      ++ about_boolean (bytes "PP_WEBHOOK")
      ++ about_boolean (bytes "PP_DRY_RUN")
      ++ about_boolean (bytes "PP_LOG_JSON")
      ++ about_boolean (bytes "PP_COMPAT_WATCHTOWER")

  dur_of-warnings :
      (key : Str) (def : ℤ) (ws : List Warning)
      → (dur_of fraction environ key def ws).1 ≡ ws ++ about_duration key def
  unfolding dur_of about_duration complaint
  dur_of-warnings key def ws = elim (Option-cases (lookup key environ)) [
    | inl unset ↦ rw (unset, dur_of) (sym (append-nil ws))
    | inr (v, set) ↦ elim (Bool-cases (is_empty v)) [
      | inl empty ↦ rw (set, empty, dur_of) (sym (append-nil ws))
      | inr full ↦ elim (Option-cases (config_duration fraction environ v)) [
        | inl bad ↦ rw (set, full, bad, dur_of) refl
        | inr (x, good) ↦ rw (set, full, good, dur_of) (sym (append-nil ws))
      ]
    ]
  ]

  bool_of-warnings :
      (key : Str) (ws : List Warning)
      → (bool_of fraction environ key false ws).1 ≡ ws ++ about_boolean key
  unfolding bool_of about_boolean complaint
  bool_of-warnings key ws = elim (Option-cases (lookup key environ)) [
    | inl unset ↦ rw (unset, bool_of) (sym (append-nil ws))
    | inr (v, set) ↦ elim (Bool-cases (is_empty v)) [
      | inl empty ↦ rw (set, empty, bool_of) (sym (append-nil ws))
      | inr full ↦ elim (Option-cases (parse_bool v)) [
        | inl bad ↦ rw (set, full, bad, bool_of) refl
        | inr (x, good) ↦ rw (set, full, good, bool_of) (sym (append-nil ws))
      ]
    ]
  ]

  -- The calls of Load in order, from the warnings about unknown variables.
  read_config-warnings :
      (default_url : Str) (scope : Scope)
      → (read_config fraction environ default_url scope).warnings
        ≡ unknown_vars environ ++ complaints
  unfolding read_config complaints
  read_config-warnings default_url scope = simp (bool_of-warnings, dur_of-warnings, append_assoc)

  -- The warnings of a configuration that Load accepted are those about unknown variables and then, in
  -- the order of the settings, one for each duration or boolean that is set, not empty and does not
  -- parse; it names the variable, the value and the default.
  pub load-warnings :
      (valid_zone : Str → Bool) (default_url : Str) (c : Config)
      → load fraction environ valid_zone default_url ≡ ok c
      → c.warnings ≡ unknown_vars environ ++ complaints
  unfolding load
  load-warnings valid_zone default_url c h =
      elim (Option-cases
        (parse_scope (env fraction environ (bytes "PP_SCOPE") (bytes "project")))) [
          | inl bad ↦ cc (rw (bad, load) at h)
          | inr (s, good) ↦
              let d = read_config fraction environ default_url s in
              elim (Bool-cases (valid_zone d.timezone)) [
                | inl valid ↦
                    let same : d ≡ c = cc (rw (good, valid, load) at h) in
                    ap (λ x. x.warnings) (sym same) ∙ read_config-warnings default_url s
                | inr invalid ↦ cc (rw (good, invalid, load) at h)
              ]
        ]
