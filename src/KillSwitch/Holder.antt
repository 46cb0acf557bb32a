-- ===== src/KillSwitch/Holder.antt =====
-- Who holds the kill switch after any history of calls.
use scopepilot.Prelude.{
  ℕ, ◌≡◌, refl, sym, subst, String, true, false, List, [], ◌∷◌, ◌++◌, arith, All,
}
use scopepilot.KillSwitch.{
  Switch, new_switch, activate, deactivate, is_active, status, to_string, shown_active,
}

-- The calls that change the switch, an activation with its time.
pub data Call : Type 0 where
  activates : String → ℕ → Call
  deactivates : Call

unfoldable pub step : Switch → Call → Switch
step s (activates by now) = activate s by now
step s deactivates = deactivate s

unfoldable pub run : Switch → List Call → Switch
run s [] = s
run s (c ∷ cs) = run (step s c) cs

abbrev pub IsActivation : Call → Type 0
IsActivation (activates by now) = Unit
IsActivation deactivates = ⊥

run-append : (s : Switch) (cs ds : List Call) → run s (cs ++ ds) ≡ run (run s cs) ds
unfolding run
run-append s [] ds = refl
run-append s (c ∷ cs) ds = run-append (step s c) cs ds

stays_active : (s : Switch) (by : String) (now : ℕ) → s.activated ≡ true → activate s by now ≡ s
unfolding activate
stays_active s by now h = ground arith

held : (s : Switch) (cs : List Call) → s.activated ≡ true → All IsActivation cs → run s cs ≡ s
unfolding run step
held s [] h all = refl
held s (activates by now ∷ cs) h all =
    subst (λ x. run x cs ≡ s) (sym (stays_active s by now h)) (held s cs h all.1)
held s (deactivates ∷ cs) h all = absurd all.0

taken :
    (s : Switch) (after : List Call) (by : String) (now : ℕ)
    → All IsActivation after
    → run s (deactivates ∷ activates by now ∷ after)
      ≡ record { activated = true; activated_at = now; activated_by = by }
unfolding run step activate deactivate
taken s after by now all = held _ after refl all

-- After any history, a deactivation and an activation, and then any activations, the switch is
-- active, and both Status and String name the first of these activations and its time.
pub first_activation_holds :
    (format : ℕ → String) (before after : List Call) (by : String) (now : ℕ)
    → All IsActivation after
    → let s = run new_switch (before ++ (deactivates ∷ activates by now ∷ after)) in
      (is_active s ≡ true)
      × (status format s ≡ record { active = true; activated_at = format now; activated_by = by })
      × (to_string format s ≡ shown_active by (format now))
unfolding is_active status to_string
first_activation_holds format before after by now all =
    rw
      (
        run-append new_switch before (deactivates ∷ activates by now ∷ after),
        taken _ after by now all,
      )
      (refl, refl, refl)

-- After any history that ends in a deactivation, the switch is the new one again: inactive, with an
-- empty status.
pub deactivation_resets :
    (format : ℕ → String) (before : List Call)
    → let s = run new_switch (before ++ (deactivates ∷ [])) in
      (s ≡ new_switch)
      × (is_active s ≡ false)
      × (status format s ≡ record { active = false; activated_at = ""; activated_by = "" })
unfolding run step deactivate is_active status new_switch
deactivation_resets format before =
    rw (run-append new_switch before (deactivates ∷ [])) (refl, refl, refl)
