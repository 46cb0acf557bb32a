-- ===== src/Mcp/Access.antt =====
-- Who may call the tools, and how long the kill switch holds against them.
use scopepilot.Prelude.{
  ℕ, suc, ◌≡◌, refl, sym, ap, ap₂, subst, ◌∙◌, ◌≢◌, ◌↔◌, ◌⊎◌, inl, inr, Bool, true, false, ◌||◌,
  not, List, [], ◌∷◌, ◌++◌, Option, none, some, arith, leb, length, take, drop, take-append-drop,
  All, Bool-cases, branch,
}
use scopepilot.Text.{Text, codes, text_eq, text_eq_iff, text_eq_ne, text_eq_refl}
use scopepilot.KillSwitch.{is_active}
use scopepilot.Proxy.{Proxy, Io, Libraries, denied, kill_switch_active, check_kill_switch}
use scopepilot.Proxy.Serve.{Request, serve_http}
use scopepilot.Proxy.Connect.{handle_connect}
use scopepilot.Mcp.Values.{Members}
use scopepilot.Mcp.State.{
  Server, Calls, Outside, ToolError, ToolResult, secure_equal, is_known_tool,
}
use scopepilot.Mcp.Dispatch.{call_tool}
use scopepilot.Mcp.Rpc.{
  HttpRequest, RpcRequest, RpcResponse, unauthorized, bearer, refuses, respond, call_named,
  serve_method, serve_body, serve_rpc,
}
use scopepilot.Mcp.Effects.{secure_equal_iff, Unlocks, call_tool-Same}

secure_equal_refl : (key : Text) → key ≢ [] → secure_equal key key ≡ true
unfolding secure_equal
secure_equal_refl key n = rw (text_eq_ne key [] n, text_eq_refl key) refl

either_false : (a b : Bool) → a || b ≡ false → (a ≡ false) × (b ≡ false)
either_false true b h = cc
either_false false b h = (refl, h)

not-false : (a : Bool) → not a ≡ false → a ≡ true
not-false true h = refl
not-false false h = cc

accepts : (key auth : Text) → refuses key auth ≡ false → auth ≡ bearer ++ key
unfolding refuses
accepts key auth h =
    let (start, token) =
      either_false
        (leb (length auth) (length bearer) || not (text_eq (take (length bearer) auth) bearer)) _
        h in
    let (longer, prefix) = either_false (leb (length auth) (length bearer)) _ start in
    let front = (text_eq_iff (take (length bearer) auth) bearer).0 (not-false _ prefix) in
    let back = (secure_equal_iff (drop (length bearer) auth) key (not-false _ token)).0 in
    sym (take-append-drop (length bearer) auth) ∙ ap₂ (λ a b. a ++ b) front back

longer_text : (n : ℕ) → leb (suc (suc (suc (suc (suc (suc (suc (suc n)))))))) 7 ≡ false
longer_text n = ground arith

accepted : (key : Text) → key ≢ [] → refuses key (bearer ++ key) ≡ false
unfolding refuses
accepted [] n = absurd (n refl)
accepted (k ∷ key) n = rw (longer_text (length key), secure_equal_refl (k ∷ key) n) refl

refuses_iff : (key auth : Text) → key ≢ [] → (refuses key auth ≡ true) ↔ (auth ≢ bearer ++ key)
refuses_iff key auth n = (
  (λ h e. cc (h, ap (refuses key) e, accepted key n)),
  (λ ne. elim (Bool-cases (refuses key auth)) [
    | inl b ↦ b
    | inr b ↦ absurd (ne (accepts key auth b))
  ]),
)

module _ (c : Calls) (o : Outside) (s : Server) where
  abbrev Answered : Server × RpcResponse → Type 0
  Answered x = x.1 ≢ unauthorized

  respond-Answered : (x : Server × (ToolError ⊎ ToolResult)) → Answered (respond x)
  respond-Answered (s', inl e) h = cc
  respond-Answered (s', inr r) h = cc

  named-Answered : (m : Option Members) → Answered (call_named c o s m)
  named-Answered none h = cc
  named-Answered (some m) h = respond-Answered _ h

  method-Answered : (r : RpcRequest) → Answered (serve_method c o s r)
  unfolding serve_method
  method-Answered r =
      branch Answered
        (text_eq r.rpc_method (codes "list_tools") || text_eq r.rpc_method (codes "tools/list")) _ _
        (λ h. cc)
        (branch Answered
          (text_eq r.rpc_method (codes "call_tool") || text_eq r.rpc_method (codes "tools/call")) _
          _ (named-Answered r.arguments)
          (branch Answered (is_known_tool s r.rpc_method) _ _ (respond-Answered _) (λ h. cc)))

  body-Answered : (b : Option RpcRequest) → Answered (serve_body c o s b)
  body-Answered none h = cc
  body-Answered (some r) h =
      branch Answered (not (text_eq r.jsonrpc (codes "2.0"))) _ _ (λ q. cc) (method-Answered r) h

  -- A POST is refused as unauthorized, with nothing changed, exactly when the server has a key and
  -- the authorization of the request is not "Bearer " followed by that key.
  pub serve_rpc-unauthorized_iff :
      (r : HttpRequest)
      → r.method ≡ codes "POST"
      → (serve_rpc c o s r ≡ (s, unauthorized))
        ↔ ((s.api_key ≢ []) × (r.authorization ≢ bearer ++ s.api_key))
  unfolding serve_rpc
  serve_rpc-unauthorized_iff r post = elim (Bool-cases (text_eq s.api_key [])) [
    | inl b ↦ (
      (λ h.
          absurd
            (body-Answered r.body (ap (λ (x : Server × RpcResponse). x.1) (rw (is_post, b) at h)))),
      (λ (n, ne). absurd (n ((text_eq_iff s.api_key []).0 b))),
    )
    | inr b ↦
        let n : s.api_key ≢ [] = λ e. cc (b, (text_eq_iff s.api_key []).1 e) in
        elim (Bool-cases (refuses s.api_key r.authorization)) [
          | inl d ↦ (
            (λ h. (n, (refuses_iff s.api_key r.authorization n).0 d)),
            (λ p. rw (is_post, b, d) refl),
          )
          | inr d ↦ (
            (λ h. absurd (
                body-Answered r.body
                  (ap (λ (x : Server × RpcResponse). x.1) (rw (is_post, b, d) at h)))),
            (λ (k, ne). cc (d, (refuses_iff s.api_key r.authorization n).1 ne)),
          )
        ]
  ]
    where
      is_post : text_eq r.method (codes "POST") ≡ true
      is_post = (text_eq_iff r.method (codes "POST")).1 post

-- The server after calls of tools in a row.
unfoldable pub calls : Calls → Server → List (Outside × Text × Members) → Server
calls c s [] = s
calls c s (e ∷ es) = calls c (call_tool c e.0 s e.1 e.2).0 es

still_on :
    (c : Calls) (s : Server) (es : List (Outside × Text × Members))
    → s.prx.switch.activated ≡ true
    → All (λ e. ¬ Unlocks s.deactivation_token e.1 e.2) es
    → (calls c s es).prx ≡ s.prx
unfolding calls
still_on c s [] on locked = refl
still_on c s (e ∷ es) on locked =
    let (same, token) = call_tool-Same c e.0 s e.1 e.2 on locked.0 in
    let s' = (call_tool c e.0 s e.1 e.2).0 in
    still_on c s' es (ap (λ (p : Proxy). p.switch.activated) same ∙ on)
      (subst (λ t. All (λ d. ¬ Unlocks t d.1 d.2) es) (sym token) locked.1)
    ∙ same

blocked :
    (w : Libraries) (p : Proxy) (r : Request) (io : Io)
    → r.url.path ≢ codes "/health"
    → p.switch.activated ≡ true
    → (serve_http w p r io).1 ≡ denied kill_switch_active
unfolding serve_http handle_connect check_kill_switch is_active
blocked w p r io no_health on = elim (Bool-cases (text_eq r.method (codes "CONNECT"))) [
  | inl b ↦ rw (text_eq_ne r.url.path (codes "/health") no_health, b, on) refl
  | inr b ↦ rw (text_eq_ne r.url.path (codes "/health") no_health, b, on) refl
]

-- While the kill switch is on, no calls of tools turn it off or change the proxy, whatever the tools
-- and their parameters are, except a call of deactivate_kill_switch with the token, where one is set:
-- the proxy denies every request, except for its health endpoint, as it did before the calls.
pub calls-hold :
    (c : Calls) (s : Server) (es : List (Outside × Text × Members)) (w : Libraries) (r : Request)
    (io : Io)
    → s.prx.switch.activated ≡ true
    → All (λ e. ¬ Unlocks s.deactivation_token e.1 e.2) es
    → r.url.path ≢ codes "/health"
    → ((calls c s es).prx ≡ s.prx)
      × ((serve_http w (calls c s es).prx r io).1 ≡ denied kill_switch_active)
calls-hold c s es w r io on locked no_health =
    let same = still_on c s es on locked in
    (
      same,
      blocked w (calls c s es).prx r io no_health
          (ap (λ (p : Proxy). p.switch.activated) same ∙ on),
    )
