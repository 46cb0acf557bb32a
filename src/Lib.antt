-- ===== src/Lib.antt =====
-- ScopePilot is a proxy and a set of tools that keep security tests inside an agreed scope. This
-- library models the parts that decide: what is in scope, which requests leave, how fast, and which
-- task comes next.
--
-- A request reaches the proxy (internal/proxy/proxy.go). The proxy asks the kill switch, normalizes
-- the host, asks the scope engine, looks the host up and checks the addresses, asks the rate limiter,
-- and writes its decision to the audit log. The task queue takes its scope validator from outside.
-- The command line validates the configuration and starts the proxy and the MCP server, whose tools
-- ask the proxy for checks, hold the same kill switch, and record findings in the store.
--
-- Files and code:
--   Prelude, Text, Number  lists, maps, byte strings and the parsing of numbers as in Go's library
--   Normalize              internal/normalize/normalize.go: Query (sortQuery), Paths (Path)
--   Scope                  internal/scope/scope.go, with the rules of internal/config/config.go:
--                          Rules (matchHostRule, matchWildcard), Hosts (IsHostInScope), Urls
--                          (IsURLInScope), Dots (hosts that end in dots), Ip (isBlockedIP),
--                          Addresses (IsIPInScope)
--   RateLimit              internal/ratelimit/ratelimit.go: Bounds (one bucket), Hosts (the map)
--   Queue                  internal/queue/queue.go: Locking (lock file and errors), Order (Next),
--                          Invariant (the queue file over any calls), Updates (Start, Complete, Fail,
--                          Retry, Add and Get), Keys (what a change of a task keeps)
--   TaskFile               saveTasks of internal/queue/queue.go: Replacing (the rename over the file)
--   KillSwitch             internal/killswitch/killswitch.go: Holder
--   Audit                  internal/audit/audit.go: Ring (Log, Recent), Redaction (Redact)
--   Proxy                  internal/proxy/proxy.go: Serve (ServeHTTP), Connect (handleConnect), Layers
--                          (the single checks), Safety, Tunnels, Logging, Pins with its children (the map
--                          of addresses), Check (CheckURL and the summaries), Redirect (CheckRedirect
--                          and DialContext of NewProxy), Headers
--   Config                 internal/config/config.go: Checks, Rules, Programs, Valid (Validate)
--   Command                cmd/pentest/main.go: Targets (filterAllowedTargets with RunSafeCheck),
--                          Scans (runDiscover and runScan up to the scanner), Start (runServer up to
--                          its listeners)
--   Store                  internal/db/store.go, internal/db/store_default.go: Assets, Hosts, Tech
--                          (RecordAssets), Records (the other records and the choice of the store)
--   Mcp                    internal/mcp/server.go, internal/mcp/tools.go: Values and Redacted
--                          (redactSensitiveMap), Schema (validateParams), State, Handlers, Dispatch
--                          (callTool), Rpc (ServeHTTP), Effects and Access (the kill switch and the
--                          key), Specialists (handleRunSpecialist)
--   Adapter                internal/adapter/adapter.go: Bbot (RunBBOT)
--   Examples               the theorems at concrete inputs, and runs of the proxy
--
-- State is passed explicitly: a method takes the record of its receiver and returns it changed. In
-- the kill switch, the limiter, the log and the queue a mutex or the lock file is held over a
-- call's reads and writes, so a call is one step, and a sequence of steps is a list of calls. A
-- request of the proxy is run alone: requests that are served at the same time are not
-- interleaved. Rates, bursts and the tokens that AllowN is asked for are not negative. A map is an
-- association list; a byte string is a list of numbers, and a clock reading is a number of
-- nanoseconds, never below zero. A bucket counts its tokens in billionths, so that a refill over
-- nanoseconds is exact; the code rounds it in float64, and no bound on what a bucket grants in total
-- is among the results. The queue file is the list of the tasks that it encodes; what the file
-- system, the clock and the uuid library do in one call is an argument of the call, and saveTasks is
-- the sequence of its calls, each of which may fail. Lower case, spaces and the comparison without
-- case (ToLower, TrimSpace, EqualFold) are those of ASCII. All recursion is structural. The loop of Path runs on fuel, as many rounds
-- as its path is long.
--
-- Parameters: `idna.ToASCII`, `url.Parse`, `url.URL.String`, `net.ParseIP`, `net.ParseCIDR`,
-- `net.SplitHostPort` and the resolver are functions that the definitions take, with nothing assumed of them.
--
-- Of a JSON number only the integer part is kept. Run of a specialist, the processes and their
-- environment, the pattern of a version and the success of RecordAssets in RunBBOT, Time.Format and the conversion of a byte string to a text of the audit log are
-- functions that the tools take.
--
-- Not modelled: the bodies of forwarded requests, a request that http.NewRequestWithContext refuses, the encoding of JSON and log lines, the persistent
-- audit file, the PostgreSQL store, RunNuclei, the bodies of the specialists, VPN, reports, the
-- dashboard, and of the command line flags, printing, processes and listeners.
pub mod Prelude
pub mod Text
pub mod Number
pub mod Normalize
pub mod Scope
pub mod RateLimit
pub mod Queue
pub mod TaskFile
pub mod KillSwitch
pub mod Audit
pub mod Proxy
pub mod Config
pub mod Command
pub mod Store
pub mod Mcp
pub mod Adapter
pub mod Examples
