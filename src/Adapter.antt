-- ===== src/Adapter.antt =====
-- internal/adapter/adapter.go: the filter of targets and RunBBOT with the processes that it starts.
-- The client's CheckURL is a function of the URL, `none` where it returns an error; the host in a line
-- of output is that of the JSON library, and a process a function of its command.
pub mod Bbot
use scopepilot.Prelude.{
  ℕ, zero, suc, ◌-◌, ◌+◌, Bool, true, false, ◌&&◌, ◌||◌, not, List, [], ◌∷◌, ◌++◌, map, Option,
  none, some, inl, inr, ◌⊎◌, ltb, leb, ◌==◌, if◌then◌else◌, length, any, keep,
}
use scopepilot.Text.{
  Text, codes, text_eq, split, join, trim_space, contains, has_prefix, index_byte,
}
use scopepilot.Number.{ℤ, pos, negsuc, atoi}
use scopepilot.Store.{MemoryStore, Asset, record_assets}

abbrev allows : Option Bool → Bool
allows none = false
allows (some b) = b

-- FilterInScope: the hosts in scope, and those that are blocked.
unfoldable pub filter_in_scope : (Text → Option Bool) → List Text → List Text × List Text
filter_in_scope check [] = ([], [])
filter_in_scope check (h ∷ hs) =
    let (in_scope, blocked) = filter_in_scope check hs in
    if allows (check (codes "https://" ++ h))
    then (h ∷ in_scope, blocked)
    else (in_scope, h ∷ blocked)

-- A URL of a proxy: its scheme, its host, and whether it holds credentials.
pub record ProxyUrl : Type 0 where
  pub scheme : Text
  pub authority : Text  -- `Host`
  pub has_user : Bool

pub data ProxyUrlError : Type 0 where
  url_unparsed scheme_unknown host_missing has_credentials : ProxyUrlError

abbrev check_proxy_url : Option ProxyUrl → Option ProxyUrlError
check_proxy_url none = some url_unparsed
check_proxy_url (some u) =
    if not (text_eq u.scheme (codes "http")) && not (text_eq u.scheme (codes "https"))
    then some scheme_unknown
    else if text_eq u.authority []
    then some host_missing
    else if u.has_user
    then some has_credentials
    else none

-- validateProxyURL
unfoldable pub validate_proxy_url : (Text → Option ProxyUrl) → Text → Option ProxyUrlError
validate_proxy_url parse raw = check_proxy_url (parse raw)

abbrev pub upper : ℕ → ℕ
upper c = if leb b'a' c && leb c b'z' then c - 32 else c

-- The key of strings.Cut at the first "=", in capitals, or none.
abbrev pub key_before : Text → Option Text
key_before [] = none
key_before (c ∷ s) =
    let rest = key_before s in
    if c == b'=' then some [] else elim rest [ none ↦ none | some k ↦ some (upper c ∷ k) ]

abbrev pub proxy_keys : List Text
proxy_keys = codes "HTTP_PROXY" ∷ codes "HTTPS_PROXY" ∷ codes "ALL_PROXY" ∷ codes "NO_PROXY" ∷ []

abbrev pub kept_key : Option Text → Bool
kept_key none = false
kept_key (some k) = not (any (λ p. text_eq k p) proxy_keys)

abbrev pub proxy_variables : Text → List Text
proxy_variables url =
    (codes "HTTP_PROXY=" ++ url)
    ∷ (codes "HTTPS_PROXY=" ++ url)
    ∷ (codes "ALL_PROXY=" ++ url)
    ∷ codes "NO_PROXY="
    ∷ (codes "http_proxy=" ++ url)
    ∷ (codes "https_proxy=" ++ url)
    ∷ (codes "all_proxy=" ++ url)
    ∷ codes "no_proxy="
    ∷ []

-- proxyEnvironment, in an environment
unfoldable pub proxy_environment : List Text → Text → List Text
proxy_environment environ url = keep (λ e. kept_key (key_before e)) environ ++ proxy_variables url

-- bbotArgs
unfoldable pub bbot_args : List Text → Text → Bool → ℕ → List Text
bbot_args targets proxy_url no_proxy version =
    (codes "-t" ∷ join targets b',' ∷ codes "-y" ∷ [])
    ++ (if ltb version 2 && ltb 0 version
        then codes "-o"
          ∷ codes "json"
          ∷ codes "--passive-only"
          ∷ codes "--no-dns"
          ∷ codes "--no-www"
          ∷ codes "--force"
          ∷ []
        else codes "-o"
          ∷ codes "-"
          ∷ codes "-rf"
          ∷ codes "passive"
          ∷ codes "-om"
          ∷ codes "json"
          ∷ [])
    ++ (if not no_proxy && not (text_eq proxy_url []) then codes "--proxy" ∷ proxy_url ∷ [] else [])

-- parseBBOTOutput. `host_of` is the host of an event, empty where a line is no event.
unfoldable pub parse_bbot_output : (Text → Text) → Text → List Text
parse_bbot_output host_of output =
    keep (λ h. not (text_eq h []))
      (map host_of (keep (λ l. not (text_eq l [])) (map trim_space (split output b'\n'))))

pub record BbotConfig : Type 0 where
  pub binary_path : Text
  pub client : Option (Text → Option Bool)  -- `MCPClient`
  pub dry_run : Bool
  pub proxy_url : Text
  pub no_proxy : Bool
  pub vpn_container : Text
  pub program_id : Text
  pub has_store : Bool

-- The entries of `Errors`, without the texts of the underlying errors.
pub data RunError : Type 0 where
  tool_exited store_failed : RunError

pub record BbotResult : Type 0 where
  pub targets_scanned : ℕ
  pub targets_blocked : ℕ
  pub subdomains_found : List Text
  pub raw_output : Text
  pub dry_run : Bool
  pub no_proxy : Bool
  pub errors : List RunError

pub data BbotError : Type 0 where
  client_missing proxy_missing : BbotError
  proxy_invalid : ProxyUrlError → BbotError
  vpn_unenforced : Text → BbotError

pub record ToolCommand : Type 0 where
  pub path : Text
  pub args : List Text
  pub environment : List Text

-- What the adapter calls: url.Parse, the reading of an event, a process (its output and whether it
-- fails), by CombinedOutput and by Output, the environment, the pattern of parseMajorVersion with its
-- submatch, and RecordAssets, with whether it succeeds.
pub record Machine : Type 0 where
  pub parse : Text → Option ProxyUrl
  pub host_of : Text → Text
  pub combined_output : ToolCommand → Text × Bool
  pub output : ToolCommand → Text × Bool
  pub environ : List Text
  pub version_match : Text → Option Text
  pub stores : Text → List Text → Bool

-- What a run leaves: the commands that it started, in order, its result, and what it gives to
-- RecordAssets.
pub record BbotRun : Type 0 where
  pub started : List ToolCommand
  pub outcome : BbotError ⊎ BbotResult
  pub stored : List Text

abbrev pub stopped : BbotError ⊎ BbotResult → BbotRun
stopped r = record { started = []; outcome = r; stored = [] }

abbrev result_of : BbotConfig → ℕ → ℕ → List Text → Text → List RunError → BbotResult
result_of cfg scanned blocked found output errors = record {
  targets_scanned = scanned;
  targets_blocked = blocked;
  subdomains_found = found;
  raw_output = output;
  dry_run = cfg.dry_run;
  no_proxy = cfg.no_proxy;
  errors = errors;
}

-- parseMajorVersion, from the submatch on
abbrev major_of : Option ℤ → ℕ
major_of none = 0
major_of (some (pos n)) = n
major_of (some (negsuc n)) = 0  -- a submatch has digits only

abbrev submatch_version : Option Text → ℕ
submatch_version none = 0
submatch_version (some t) = major_of (atoi t)

unfoldable pub parse_major_version : Machine → Text → ℕ
parse_major_version m version_output = submatch_version (m.version_match version_output)

-- The command of detectBBOTVersion, which sets no environment and so inherits that of the caller.
abbrev pub version_command : Machine → Text → ToolCommand
version_command m binary = record {
  path = binary;
  args = codes "--version" ∷ [];
  environment = m.environ;
}

-- detectBBOTVersion
unfoldable pub detect_bbot_version : Machine → Text → ℕ
unfolding parse_major_version
detect_bbot_version m binary =
    let (data_read, failed) = m.output (version_command m binary) in
    if failed then 0 else parse_major_version m data_read

-- The command of RunBBOT.
abbrev pub bbot_command : Machine → BbotConfig → List Text → ToolCommand
bbot_command m cfg in_scope = record {
  path = cfg.binary_path;
  args = bbot_args in_scope cfg.proxy_url cfg.no_proxy (detect_bbot_version m cfg.binary_path);
  environment = if cfg.no_proxy then m.environ else proxy_environment m.environ cfg.proxy_url;
}

-- RunBBOT from the processes on.
unfoldable pub execute_bbot : Machine → BbotConfig → (Text → Option Bool) → List Text → ℕ → BbotRun
execute_bbot m cfg check in_scope blocked =
    let command = bbot_command m cfg in_scope in
    let (output, failed) = m.combined_output command in
    let discovered = parse_bbot_output m.host_of output in
    let found =
      if cfg.no_proxy
      then keep (λ h. ltb 0 (length (filter_in_scope check (h ∷ [])).0)) discovered
      else discovered in
    let exited = if failed then tool_exited ∷ [] else [] in
    let records = cfg.has_store && not (text_eq cfg.program_id []) && ltb 0 (length found) in
    let unstored =
      if records && not (m.stores cfg.program_id found) then store_failed ∷ [] else [] in
    record {
      started = version_command m cfg.binary_path ∷ command ∷ [];
      outcome = inr (result_of cfg (length in_scope) blocked found output (exited ++ unstored));
      stored = if records then found else [];
    }

-- The guards of RunBBOT after the filter.
abbrev pub guard_vpn : Machine → BbotConfig → (Text → Option Bool) → List Text → ℕ → BbotRun
guard_vpn m cfg check in_scope blocked =
    if not (text_eq cfg.vpn_container [])
    then stopped (inl (vpn_unenforced cfg.vpn_container))
    else execute_bbot m cfg check in_scope blocked

abbrev pub guard_url :
    Machine → BbotConfig → (Text → Option Bool) → List Text → ℕ → Option ProxyUrlError → BbotRun
guard_url m cfg check in_scope blocked (some e) = stopped (inl (proxy_invalid e))
guard_url m cfg check in_scope blocked none = guard_vpn m cfg check in_scope blocked

unfoldable pub guarded_bbot :
    Machine → BbotConfig → (Text → Option Bool) → List Text → List Text → BbotRun
guarded_bbot m cfg check in_scope blocked =
    if cfg.dry_run
    then stopped (
        inr
          (result_of (record cfg { no_proxy = false }) (length in_scope) (length blocked) [] [] []))
    else if length in_scope == 0
    then stopped (inr (result_of (record cfg { no_proxy = false }) 0 (length blocked) [] [] []))
    else if cfg.no_proxy
    then guard_vpn m cfg check in_scope (length blocked)
    else if text_eq cfg.proxy_url []
    then stopped (inl proxy_missing)
    else guard_url m cfg check in_scope (length blocked) (validate_proxy_url m.parse cfg.proxy_url)

abbrev pub with_client : Machine → BbotConfig → List Text → Option (Text → Option Bool) → BbotRun
with_client m cfg targets none = stopped (inl client_missing)
with_client m cfg targets (some check) =
    let (in_scope, blocked) = filter_in_scope check targets in
    guarded_bbot m cfg check in_scope blocked

-- RunBBOT
unfoldable pub run_bbot : Machine → BbotConfig → List Text → BbotRun
run_bbot m cfg targets = with_client m cfg targets cfg.client
