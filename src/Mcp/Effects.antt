-- ===== src/Mcp/Effects.antt =====
-- What a call of a tool does to the proxy and its kill switch.
use scopepilot.Prelude.{
  ℕ, ◌≡◌, refl, ap, ◌≢◌, ◌⊎◌, inl, inr, String, true, List, [], ◌∷◌, Option, none, some, find_first,
  Bool-cases, branch, branch_on,
}
use scopepilot.Text.{Text, codes, text_eq, text_eq_iff}
use scopepilot.KillSwitch.{Switch, activate}
use scopepilot.Mcp.Values.{Members}
use scopepilot.Mcp.Schema.{ToolDef, ParamError, validate_params}
use scopepilot.Mcp.State.{
  Server, Calls, Outside, ToolError, ToolResult, string_param, list_param, secure_equal, list_tools,
}
use scopepilot.Mcp.Handlers.{
  handle_activate_kill_switch, handle_deactivate_kill_switch, handle_record_assets,
  handle_record_finding, handle_mark_tested, keep_assets, keep_finding, keep_tested, first_empty,
  text_in,
}
use scopepilot.Mcp.Dispatch.{
  dispatch, logged, validated, with_tool, call_tool, log_tool_invocation, is_specialist,
}

pub secure_equal_iff : (a b : Text) → (secure_equal a b ≡ true) → (a ≡ b) × (b ≢ [])
unfolding secure_equal
secure_equal_iff a b h = elim (Bool-cases (text_eq a [])) [
  | inl x ↦ cc (rw x at h)
  | inr x ↦ elim (Bool-cases (text_eq b [])) [
    | inl y ↦ cc (rw (x, y) at h)
    | inr y ↦ ((text_eq_iff a b).0 (rw (x, y) at h), λ e. cc (y, (text_eq_iff b []).1 e))
  ]
]

-- A call that deactivates the kill switch: of that tool, with a token that is set.
abbrev pub Unlocks : Text → Text → Members → Type 0
Unlocks secret tool m =
    (tool ≡ codes "deactivate_kill_switch") × (string_param "token" m ≡ secret) × (secret ≢ [])

-- The proxy and the token are those of before.
abbrev pub Kept : Server → Server → Type 0
Kept s s' = (s'.prx ≡ s.prx) × (s'.deactivation_token ≡ s.deactivation_token)

held_switch : (w : Switch) (by : String) (now : ℕ) → w.activated ≡ true → activate w by now ≡ w
unfolding activate
held_switch w by now on = rw on refl

module _ (c : Calls) (o : Outside) (s : Server) (tool : Text) (m : Members)
    (on : s.prx.switch.activated ≡ true) (locked : ¬ Unlocks s.deactivation_token tool m) where
  abbrev pub Same : Server × (ToolError ⊎ ToolResult) → Type 0
  Same x = Kept s x.0

  activation-Same : Same (handle_activate_kill_switch c o s m)
  unfolding handle_activate_kill_switch
  activation-Same =
      (ap (λ w. record s.prx { switch = w }) (held_switch s.prx.switch _ o.now on), refl)

  deactivation-Same :
      tool ≡ codes "deactivate_kill_switch" → Same (handle_deactivate_kill_switch c o s m)
  unfolding handle_deactivate_kill_switch
  deactivation-Same e =
      branch Same (text_eq s.deactivation_token []) _ _ (refl, refl)
        (elim (Bool-cases (secure_equal (string_param "token" m) s.deactivation_token)) [
          | inr b ↦ rw b (refl, refl)
          | inl b ↦
              let (q, n) = secure_equal_iff (string_param "token" m) s.deactivation_token b in
              absurd (locked (e, q, n))
        ])

  assets-Same : Same (handle_record_assets c o s m)
  unfolding handle_record_assets
  assets-Same =
      branch Same (text_eq (string_param "program" m) []) _ _ (refl, refl)
        (by_hosts (list_param "hosts" 1000 m))
    where
      by_hosts :
          (hosts : ToolError ⊎ List Text)
          → Same (keep_assets c o s m (string_param "program" m) hosts)
      by_hosts (inl e) = (refl, refl)
      by_hosts (inr hosts) = (refl, refl)

  finding-Same : Same (handle_record_finding c o s m)
  unfolding handle_record_finding
  finding-Same = by_key (first_empty c o s m ("program" ∷ "host" ∷ "title" ∷ []))
    where
      by_key : (key : Option String) → Same (keep_finding c o s m key)
      by_key (some key) = (refl, refl)
      by_key none =
          branch Same
            (text_in c o s m (string_param "severity" m)
              ("critical" ∷ "high" ∷ "medium" ∷ "low" ∷ "info" ∷ []))
            _ _ (refl, refl) (refl, refl)

  tested-Same : Same (handle_mark_tested c o s m)
  unfolding handle_mark_tested
  tested-Same = by_key (first_empty c o s m ("program" ∷ "host" ∷ "endpoint" ∷ "check" ∷ []))
    where
      by_key : (key : Option String) → Same (keep_tested c o s m key)
      by_key (some key) = (refl, refl)
      by_key none =
          branch Same
            (text_in c o s m (string_param "result" m)
              ("not_vulnerable" ∷ "vulnerable" ∷ "error" ∷ "timeout" ∷ "skipped" ∷ []))
            _ _ (refl, refl) (refl, refl)

  abbrev SameOption : Option (Server × (ToolError ⊎ ToolResult)) → Type 0
  SameOption none = Unit
  SameOption (some x) = Same x

  dispatch-Same : SameOption (dispatch c o s tool m)
  unfolding dispatch
  dispatch-Same =
      let still : Kept s s = (refl, refl) in
      branch SameOption (text_eq tool (codes "get_scope_status")) _ _ still (
        branch SameOption (text_eq tool (codes "check_url")) _ _ still (
          branch SameOption (text_eq tool (codes "get_audit_log")) _ _ still (
            branch SameOption (text_eq tool (codes "get_recent_decisions")) _ _ still (
              branch SameOption (text_eq tool (codes "get_ratelimit_status")) _ _ still (
                branch SameOption (text_eq tool (codes "activate_kill_switch")) _ _ activation-Same
                  (branch_on SameOption (text_eq tool (codes "deactivate_kill_switch")) _ _
                    (λ e.
                      deactivation-Same ((text_eq_iff tool (codes "deactivate_kill_switch")).0 e))
                    (branch SameOption (text_eq tool (codes "is_kill_switch_active")) _ _ still (
                      branch SameOption (text_eq tool (codes "run_safe_check")) _ _ still (
                        branch SameOption (is_specialist tool) _ _ still (
                          branch SameOption (text_eq tool (codes "validate_hosts")) _ _ still (
                            branch SameOption (text_eq tool (codes "health")) _ _ still (
                              branch SameOption (text_eq tool (codes "scope_shape")) _ _ still (
                                branch SameOption (text_eq tool (codes "recall_engagement")) _ _
                                  still
                                  (branch SameOption (text_eq tool (codes "record_assets")) _ _
                                    assets-Same
                                    (branch SameOption (text_eq tool (codes "record_finding")) _ _
                                      finding-Same
                                      (branch SameOption (text_eq tool (codes "mark_tested")) _ _
                                        tested-Same tt))))))))))))))))

  logged-Same :
      (x : Option (Server × (ToolError ⊎ ToolResult))) → SameOption x → Same (logged o s tool m x)
  unfolding log_tool_invocation
  logged-Same none h = (refl, refl)
  logged-Same (some x) h = h

  pub call_tool-Same : Same (call_tool c o s tool m)
  unfolding call_tool
  call_tool-Same = by_tool (find_first (λ t. text_eq t.tool_name tool) (list_tools s))
    where
      by_schema : (e : Option ParamError) → Same (validated c o s tool m e)
      by_schema (some e) = (refl, refl)
      by_schema none = logged-Same (dispatch c o s tool m) dispatch-Same

      by_tool : (t : Option ToolDef) → Same (with_tool c o s tool m t)
      by_tool none = (refl, refl)
      by_tool (some t) = by_schema (validate_params t m)
