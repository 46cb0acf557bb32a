-- ===== src/Command/Scans.antt =====
-- Which targets runDiscover and runScan of cmd/pentest/main.go hand to the scanner.
use scopepilot.Prelude.{
  ℕ, suc, ◌≡◌, ◌≢◌, String, true, false, refl, ◌↔◌, Bool, List, [], ◌∷◌, map, Option, none, some,
  arith, ◌==◌, if◌then◌else◌, length, keep,
}
use scopepilot.Text.{Text}
use scopepilot.Config.{Config, ProgramConfig}
use scopepilot.Proxy.{Proxy, Libraries, Io}
use scopepilot.Proxy.Check.{run_safe_check}
use scopepilot.Command.{
  targets_to_urls, PolicyError, scans, no_targets, scan_allowed, scan_checked, SafeCheck,
  find_program, extract_targets, validate_scanner_network_policy, run_discover, run_scan,
}
use scopepilot.Command.Targets.{wire, of_target, passes, filtered}

-- What has to hold before a scanner runs with targets.
abbrev pub Permitted : Bool → Bool → Option PolicyError → List Text → List Text → Type 0
Permitted dry installed policy allowed ts =
    (dry ≡ false) × (installed ≡ true) × (policy ≡ none) × (ts ≡ allowed) × (ts ≢ [])

scans_inj : {x y : List Text} → scans x ≡ scans y → y ≡ x
scans_inj h = cc

scan_allowed_iff :
    (dry installed : Bool) (policy : Option PolicyError) (allowed ts : List Text)
    → (scan_allowed dry installed policy allowed ≡ scans ts)
      ↔ Permitted dry installed policy allowed ts
scan_allowed_iff dry installed policy [] ts =
    ((λ h. cc), (λ (d, i, p, e, some_left). absurd (some_left e)))
scan_allowed_iff true installed policy (a ∷ rest) ts = ((λ h. cc), (λ (d, i, p, e, n). cc))
scan_allowed_iff false installed (some x) (a ∷ rest) ts = ((λ h. cc), (λ (d, i, p, e, n). cc))
scan_allowed_iff false false none (a ∷ rest) ts = ((λ h. cc), (λ (d, i, p, e, n). cc))
scan_allowed_iff false true none (a ∷ rest) ts = (
  (λ h. let same = scans_inj h in (refl, refl, refl, same, λ none_left. cc)),
  (λ (d, i, p, e, n). cc),
)

nonzero : (n : ℕ) → (suc n == 0) ≡ false
nonzero n = ground arith

module _ (w : Libraries) (p : Proxy) (c : Config) (dry installed : Bool) (safe : SafeCheck) where
  scan_targets_iff :
      (policy : Option PolicyError) (targets : List Text) (es : List (Io × Text)) (ts : List Text)
      → map (λ (e : Io × Text). e.1) es ≡ targets
      → safe (targets_to_urls targets)
        ≡ some (some (map wire (run_safe_check w p (map of_target es))))
      → ((if length targets == 0
            then no_targets
            else scan_checked dry installed policy targets (safe (targets_to_urls targets)))
          ≡ scans ts)
        ↔ Permitted dry installed policy (map (λ (e : Io × Text). e.1) (keep (passes w p) es)) ts
  scan_targets_iff policy targets [] ts here asked =
      rw (← here) ((λ h. cc), (λ (d, i, q, e, n). absurd (n e)))
  scan_targets_iff policy targets (e ∷ es) ts here asked =
      rw (asked, ← here, nonzero (length (map (λ (x : Io × Text). x.1) es)), filtered w p (e ∷ es))
        (scan_allowed_iff dry installed policy
          (map (λ (x : Io × Text). x.1) (keep (passes w p) (e ∷ es))) ts)

-- Where the program is found and the client's RunSafeCheck returns what RunSafeCheck of the proxy
-- returns for the URLs of its targets, runDiscover calls RunBBOT, and runScan calls RunNuclei, exactly
-- with the targets whose URL CheckURL allows, in their order, and only if there are any, outside the
-- dry run, where the network policy permits a scanner and the tool is installed.
pub scanned_targets :
    (w : Libraries) (p : Proxy) (c : Config) (id : String) (prog : ProgramConfig)
    (dry installed : Bool) (safe : SafeCheck) (es : List (Io × Text)) (ts : List Text)
    → find_program c id ≡ some prog
    → map (λ (e : Io × Text). e.1) es ≡ extract_targets prog
    → safe (targets_to_urls (extract_targets prog))
      ≡ some (some (map wire (run_safe_check w p (map of_target es))))
    → ((run_discover c id dry installed safe ≡ scans ts)
        ↔ Permitted dry installed
            (validate_scanner_network_policy c prog)
            (map (λ (e : Io × Text). e.1) (keep (passes w p) es))
            ts)
      × ((run_scan c id dry installed safe ≡ scans ts)
          ↔ Permitted dry installed
              (validate_scanner_network_policy c prog)
              (map (λ (e : Io × Text). e.1) (keep (passes w p) es))
              ts)
unfolding run_discover run_scan
scanned_targets w p c id prog dry installed safe es ts found here asked = rw found (
    let both =
      scan_targets_iff w p c dry installed safe (validate_scanner_network_policy c prog)
        (extract_targets prog) es ts here asked in
    (both, both))
