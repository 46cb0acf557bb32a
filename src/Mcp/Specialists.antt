-- ===== src/Mcp/Specialists.antt =====
-- When a specialist runs.
use scopepilot.Prelude.{
  ◌≤◌, ◌≡◌, sym, ◌≢◌, ◌⊎◌, inl, inr, false, List, [], Option, arith, ltb, ◌==◌, if◌then◌else◌,
  length, any, ap, true, ◌∷◌, ◌&&◌, Any, Any-map, any→Any, Bool-cases, passed, passed_not, not_ltb,
}
use scopepilot.Text.{Text, codes, text_eq, text_eq_iff}
use scopepilot.KillSwitch.{is_active}
use scopepilot.Scope.Addresses.{include_rules}
use scopepilot.Mcp.Values.{Json, Members, member_of}
use scopepilot.Mcp.State.{
  Server, Calls, Outside, ToolError, string_param, secure_equal, specialist_targets, target_array,
  bind_error, targets_empty, targets_too_many, SpecialistConfig, exact_host_only_scope,
}
use scopepilot.Mcp.Handlers.{
  handle_run_specialist, run_specialist, run_targets, SpecialistCall, SpecialistRun,
}
use scopepilot.Mcp.Effects.{secure_equal_iff}

-- One to a hundred targets.
targets_counted :
    (raw : Option Json) (targets : List Text)
    → specialist_targets raw ≡ inr targets
    → (1 ≤ length targets) × (length targets ≤ 100)
unfolding specialist_targets
targets_counted raw targets e = by_list (target_array raw) e
  where
    limits : List Text → ToolError ⊎ List Text
    limits ts =
        if length ts == 0
        then inl targets_empty
        else if ltb 100 (length ts)
        then inl targets_too_many
        else inr ts

    by_length :
        (ts : List Text) → limits ts ≡ inr targets → (1 ≤ length targets) × (length targets ≤ 100)
    by_length ts h = elim (Bool-cases (length ts == 0)) [
      | inl b ↦ cc (rw b at h)
      | inr b ↦ elim (Bool-cases (ltb 100 (length ts))) [
        | inl d ↦ cc (rw (b, d) at h)
        | inr d ↦
            let same : ts ≡ targets = of_inr (rw (b, d) at h) in
            let most = not_ltb 100 (length ts) d in rw (sym same) (ground arith, most)
      ]
    ]
      where
        of_inr : {x y : List Text} → ◌≡◌ {A = ToolError ⊎ List Text} (inr x) (inr y) → x ≡ y
        of_inr q = cc

    by_list :
        (a : ToolError ⊎ List Text)
        → bind_error a limits ≡ inr targets
        → (1 ≤ length targets) × (length targets ≤ 100)
    by_list (inl x) h = cc
    by_list (inr ts) h = by_length ts h

abbrev pub gate : Text
gate = codes "run_gate_specialist"

module _ (c : Calls) (o : Outside) (s : Server) (m : Members) (x : SpecialistCall)
    (xs : List SpecialistCall) where
  abbrev Runs : SpecialistRun → Type 0
  Runs r = r.runs ≡ x ∷ xs

  never : ¬ ([] ≡ x ∷ xs)
  never h = cc

  of_scope :
      (tool : Text) (targets : List Text) (cfg : SpecialistConfig)
      → Runs (run_specialist c o s m tool targets cfg)
      → (x ≡ record { specialist = tool; targets = targets; config = cfg }) × (xs ≡ [])
  unfolding run_specialist
  of_scope tool targets cfg h =
      let (scope, f) =
        passed Runs
          (text_eq tool (codes "run_recon_specialist")
            && exact_host_only_scope (include_rules s.prx.engine))
          _ _ h never in
      (cc, cc)

  -- With which configuration a specialist runs.
  abbrev pub Configured : Text → Type 0
  Configured tool =
      ((tool ≢ gate) × (x.config ≡ s.specialist_config))
      ⊎ ((tool ≡ gate)
          × (string_param "approval_token" m ≡ s.gate_approval_token)
          × (s.gate_approval_token ≢ [])
          × (x.config ≡ record s.specialist_config { allow_exploitation = true }))

  of_targets :
      (tool : Text) (o₁ : ToolError ⊎ List Text)
      → Runs (run_targets c o s m tool o₁)
      → (o₁ ≡ inr x.targets)
        × Any (λ n. n ≡ tool) s.specialists
        × (x.specialist ≡ tool)
        × Configured tool
        × (xs ≡ [])
  of_targets tool (inl e) h = absurd (never h)
  of_targets tool (inr targets) h =
      let (registered, f₁) =
        passed_not Runs (any (λ n. text_eq n tool) s.specialists) _ _ h never in
      let named =
        Any-map (λ n. (text_eq_iff n tool).0) s.specialists
          (any→Any (λ n. text_eq n tool) s.specialists registered) in
      elim (Bool-cases (text_eq tool gate)) [
        | inr b ↦
            let (e, last) = of_scope tool targets s.specialist_config (rw b at f₁) in
            (
              ap (λ (y : SpecialistCall). inr y.targets) (sym e),
              named,
              ap (λ (y : SpecialistCall). y.specialist) e,
              inl (
                (λ g. cc (b, (text_eq_iff tool gate).1 g)),
                ap (λ (y : SpecialistCall). y.config) e,
              ),
              last,
            )
        | inl b ↦
            let (set, f₂) = passed Runs (text_eq s.gate_approval_token []) _ _ (rw b at f₁) never in
            let (approved, f₃) =
              passed_not Runs (secure_equal (string_param "approval_token" m) s.gate_approval_token)
                _ _ f₂ never in
            let (e, last) =
              of_scope tool targets (record s.specialist_config { allow_exploitation = true }) f₃ in
            let (token, nonempty) =
              secure_equal_iff (string_param "approval_token" m) s.gate_approval_token approved in
            (
              ap (λ (y : SpecialistCall). inr y.targets) (sym e),
              named,
              ap (λ (y : SpecialistCall). y.specialist) e,
              inr (
                (text_eq_iff tool gate).0 b,
                token,
                nonempty,
                ap (λ (y : SpecialistCall). y.config) e,
              ),
              last,
            )
      ]

-- When handleRunSpecialist calls Run, whether or not the run then fails, it calls it once, of the
-- specialist that is asked for and registered, with 1 to 100 targets, those of the parameters, and
-- only while the kill switch is off. The gate specialist runs only with the approval token, where one
-- is set, and with exploitation allowed; every other one with the configuration of the server.
pub handle_run_specialist-gated :
    (c : Calls) (o : Outside) (s : Server) (m : Members) (tool : Text) (x : SpecialistCall)
    (xs : List SpecialistCall)
    → (handle_run_specialist c o s m tool).runs ≡ x ∷ xs
    → (s.prx.switch.activated ≡ false)
      × (specialist_targets (member_of (codes "targets") m) ≡ inr x.targets)
      × ((1 ≤ length x.targets) × (length x.targets ≤ 100))
      × Any (λ n. n ≡ tool) s.specialists
      × (x.specialist ≡ tool)
      × Configured c o s m x xs tool
      × (xs ≡ [])
unfolding handle_run_specialist is_active
handle_run_specialist-gated c o s m tool x xs h =
    let (off, f) = passed (Runs c o s m x xs) s.prx.switch.activated _ _ h (never c o s m x xs) in
    let (q, named, same, configured, last) =
      of_targets c o s m x xs tool (specialist_targets (member_of (codes "targets") m)) f in
    (
      off,
      q,
      targets_counted (member_of (codes "targets") m) x.targets q,
      named,
      same,
      configured,
      last,
    )
