-- ===== src/Examples/Mcp.antt =====
-- Calls of the tools, for internal/mcp/server.go and internal/mcp/tools.go.
use scopepilot.Prelude.{
  ◌≤◌, ◌≡◌, refl, ◌≢◌, ◌↔◌, ◌⊎◌, inr, true, false, List, [], ◌∷◌, ◌++◌, none, some, Any,
}
use scopepilot.Number.{pos}
use scopepilot.Text.{Text, codes, text_eq_iff}
use scopepilot.Proxy.{Proxy, new_proxy, denied, kill_switch_active}
use scopepilot.Proxy.Serve.{serve_http}
use scopepilot.Store.{new_memory_store}
use scopepilot.Mcp.Values.{
  json_string, json_array, json_object, no_elements, element, Members, no_members, member,
  member_of, redacted, is_sensitive_key, redact_sensitive_map,
}
use scopepilot.Mcp.Redacted.{key, index, at, redact_sensitive_map-hides}
use scopepilot.Mcp.State.{
  Server, Calls, Outside, ToolResult, string_param, specialist_targets, specialist_result,
}
use scopepilot.Mcp.Handlers.{handle_run_specialist, SpecialistCall}
use scopepilot.Mcp.Rpc.{HttpRequest, unauthorized, bearer, serve_rpc}
use scopepilot.Mcp.Effects.{Unlocks}
use scopepilot.Mcp.Access.{serve_rpc-unauthorized_iff, calls, calls-hold}
use scopepilot.Mcp.Specialists.{gate, Configured, handle_run_specialist-gated}
use scopepilot.Examples.Proxy.{libraries, io, config, request}

abbrev secrets : Members
secrets =
    member (codes "items")
      (json_array (
        element (json_object (member (codes "Token") (json_string (codes "s")) no_members))
          no_elements))
      no_members

is_secret : is_sensitive_key (codes "Token") ≡ true
unfolding is_sensitive_key
is_secret = refl

redact_sensitive_map-hides_example :
    (at
        (key (codes "items") ∷ index 0 ∷ key (codes "Token") ∷ [])
        (json_object (redact_sensitive_map secrets))
      ≡ none)
    ⊎ (at
          (key (codes "items") ∷ index 0 ∷ key (codes "Token") ∷ [])
          (json_object (redact_sensitive_map secrets))
        ≡ some redacted)
redact_sensitive_map-hides_example =
    redact_sensitive_map-hides (codes "Token") is_secret (key (codes "items") ∷ index 0 ∷ [])
      secrets refl

abbrev called : Calls
called = record {
  libraries = libraries;
  format = λ t. "t";
  spelled = λ t. "s";
  run = λ n ts cfg. inr (json_string (codes "done"));
}

abbrev outside : Outside
outside = record {
  checks = λ i. io;
  now = 7;
  new_id = codes "f";
  uptime = "1s";
  tool_entry = "1";
  tool_time = "t";
  last_entry = "2";
  last_time = "t";
}

abbrev server : Proxy → Server
server p = record {
  prx = p;
  store = new_memory_store (pos 10);
  program_id = "p";
  api_key = codes "k";
  deactivation_token = codes "d";
  specialist_config = record { dry_run = false; allow_exploitation = false };
  specialists = gate ∷ [];
  gate_approval_token = codes "g";
}

abbrev post : HttpRequest
post = record { method = codes "POST"; authorization = codes "Bearer x"; body = none }

serve_rpc-unauthorized_iff_example :
    (serve_rpc called outside (server (new_proxy config)) post
      ≡ (server (new_proxy config), unauthorized))
    ↔ (((server (new_proxy config)).api_key ≢ [])
        × (codes "Bearer x" ≢ bearer ++ (server (new_proxy config)).api_key))
serve_rpc-unauthorized_iff_example =
    serve_rpc-unauthorized_iff called outside (server (new_proxy config)) post refl

abbrev stopped : Server
stopped = server (record (new_proxy config) {
  switch = record { activated = true; activated_at = 3; activated_by = "op" };
})

abbrev tries : List (Outside × Text × Members)
tries =
    (
      outside,
      codes "deactivate_kill_switch",
      member (codes "token") (json_string (codes "x")) no_members,
    )
    ∷ (outside, codes "health", no_members)
    ∷ []

wrong_token :
    ¬ Unlocks
      (codes "d")
      (codes "deactivate_kill_switch")
      (member (codes "token") (json_string (codes "x")) no_members)
unfolding string_param member_of
wrong_token (e, q, n) = cc ((text_eq_iff (codes "x") (codes "d")).1 q)

other_tool : ¬ Unlocks (codes "d") (codes "health") no_members
other_tool (e, q, n) = cc ((text_eq_iff (codes "health") (codes "deactivate_kill_switch")).1 e)

no_health : codes "/x" ≢ codes "/health"
no_health e = cc ((text_eq_iff (codes "/x") (codes "/health")).1 e)

calls-hold_example :
    ((calls called stopped tries).prx ≡ stopped.prx)
    × ((serve_http libraries (calls called stopped tries).prx (request (codes "GET")) io).1
        ≡ denied kill_switch_active)
calls-hold_example =
    calls-hold called stopped tries libraries (request (codes "GET")) io refl
      (wrong_token, (other_tool, tt)) no_health

abbrev approval : Members
approval =
    member (codes "targets") (json_array (element (json_string (codes "b.c")) no_elements))
      (member (codes "approval_token") (json_string (codes "g")) no_members)

abbrev gated : SpecialistCall
gated = record {
  specialist = gate;
  targets = codes "b.c" ∷ [];
  config = record { dry_run = false; allow_exploitation = true };
}

runs :
    (handle_run_specialist called outside (server (new_proxy config)) approval gate).runs
    ≡ gated ∷ []
unfolding handle_run_specialist scopepilot.KillSwitch.is_active new_proxy
    scopepilot.KillSwitch.new_switch specialist_targets member_of scopepilot.Mcp.State.secure_equal
    string_param scopepilot.Mcp.Handlers.run_specialist
runs = refl

handle_run_specialist-gated_example :
    ((server (new_proxy config)).prx.switch.activated ≡ false)
    × (specialist_targets (member_of (codes "targets") approval) ≡ inr (codes "b.c" ∷ []))
    × ((1 ≤ 1) × (1 ≤ 100))
    × Any (λ n. n ≡ gate) (gate ∷ [])
    × (gate ≡ gate)
    × Configured called outside (server (new_proxy config)) approval gated [] gate
    × (◌≡◌ {A = List SpecialistCall} [] [])
handle_run_specialist-gated_example =
    handle_run_specialist-gated called outside (server (new_proxy config)) approval gate gated []
      runs
