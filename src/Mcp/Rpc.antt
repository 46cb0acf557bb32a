-- ===== src/Mcp/Rpc.antt =====
-- ServeHTTP of internal/mcp/server.go. The limit on the body and its decoding are those of libraries:
-- a body that cannot be decoded is `none`. The identifier of a request, which the response repeats,
-- is left out.
use scopepilot.Prelude.{
  Bool, ◌&&◌, ◌||◌, not, List, [], Option, none, some, inl, inr, ◌⊎◌, leb, if◌then◌else◌, length,
  take, drop,
}
use scopepilot.Text.{Text, codes, text_eq}
use scopepilot.Mcp.Values.{
  Json, json_null, json_bool, json_number, json_string, json_array, json_object, Members,
  no_members, member_of,
}
use scopepilot.Mcp.Schema.{ToolDef}
use scopepilot.Mcp.State.{
  Server, Calls, Outside, ToolError, ToolResult, list_tools, is_known_tool, secure_equal,
  string_param,
}
use scopepilot.Mcp.Dispatch.{call_tool}

-- jsonrpcRequest
pub record RpcRequest : Type 0 where
  pub jsonrpc : Text
  pub rpc_method : Text  -- `Method`
  pub arguments : Option Members  -- `Params`

pub record HttpRequest : Type 0 where
  pub method : Text
  pub authorization : Text
  pub body : Option RpcRequest

-- The responses, each with its status and its error or result.
pub data RpcResponse : Type 0 where
  method_not_allowed unauthorized unparsed invalid_request params_missing method_not_found :
      RpcResponse
  tool_list : List ToolDef → RpcResponse
  tool_error : ToolError → RpcResponse
  tool_result : ToolResult → RpcResponse

abbrev pub bearer : Text
bearer = codes "Bearer "

-- The conditions under which the key is refused.
unfoldable pub refuses : Text → Text → Bool
refuses key auth =
    leb (length auth) (length bearer)
    || not (text_eq (take (length bearer) auth) bearer)
    || not (secure_equal (drop (length bearer) auth) key)

abbrev pub respond : Server × (ToolError ⊎ ToolResult) → Server × RpcResponse
respond (s, inl e) = (s, tool_error e)
respond (s, inr r) = (s, tool_result r)

-- req.Params["arguments"] as an object, or an empty one
abbrev object_or_empty : Option Json → Members
object_or_empty (some (json_object m)) = m
object_or_empty none = no_members
object_or_empty (some json_null) = no_members
object_or_empty (some (json_bool b)) = no_members
object_or_empty (some (json_number n)) = no_members
object_or_empty (some (json_string t)) = no_members
object_or_empty (some (json_array vs)) = no_members

abbrev or_empty : Option Members → Members
or_empty none = no_members
or_empty (some m) = m

abbrev pub call_named : Calls → Outside → Server → Option Members → Server × RpcResponse
call_named c o s none = (s, params_missing)
call_named c o s (some m) =
    respond
      (call_tool c o s (string_param "name" m) (object_or_empty (member_of (codes "arguments") m)))

-- The switch over the method.
unfoldable pub serve_method : Calls → Outside → Server → RpcRequest → Server × RpcResponse
serve_method c o s r =
    if text_eq r.rpc_method (codes "list_tools") || text_eq r.rpc_method (codes "tools/list")
    then (s, tool_list (list_tools s))
    else if text_eq r.rpc_method (codes "call_tool") || text_eq r.rpc_method (codes "tools/call")
    then call_named c o s r.arguments
    else if is_known_tool s r.rpc_method
    then respond (call_tool c o s r.rpc_method (or_empty r.arguments))
    else (s, method_not_found)

abbrev pub serve_body : Calls → Outside → Server → Option RpcRequest → Server × RpcResponse
serve_body c o s none = (s, unparsed)
serve_body c o s (some r) =
    if not (text_eq r.jsonrpc (codes "2.0")) then (s, invalid_request) else serve_method c o s r

-- ServeHTTP
unfoldable pub serve_rpc : Calls → Outside → Server → HttpRequest → Server × RpcResponse
serve_rpc c o s r =
    if not (text_eq r.method (codes "POST"))
    then (s, method_not_allowed)
    else if not (text_eq s.api_key []) && refuses s.api_key r.authorization
    then (s, unauthorized)
    else serve_body c o s r.body
