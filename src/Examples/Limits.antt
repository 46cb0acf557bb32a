-- ===== src/Examples/Limits.antt =====
-- Buckets and hosts, for internal/ratelimit/ratelimit.go.
use scopepilot.Prelude.{
  ℕ, ◌+◌, ◌*◌, ◌≡◌, String, true, List, [], ◌∷◌, arith, insert, lookup-insert_self,
}
use scopepilot.Text.{codes, text_keys}
use scopepilot.RateLimit.{TokenBucket, PerHostLimiter, unit, allow_n}
use scopepilot.RateLimit.Bounds.{waiting_allows}
use scopepilot.RateLimit.Hosts.{HostCall, host_verdicts, verdicts, calls_of, host_verdicts-verdicts}

abbrev bucket : TokenBucket
bucket = record { rate = 2; capacity = 5; tokens = 3 * unit; last = 10 }

waiting_allows_example : (allow_n bucket 5 (10 + 5 * unit) (11 + 5 * unit)).1 ≡ true
waiting_allows_example =
    waiting_allows bucket 5 (omega arith) (omega arith) (10 + 5 * unit) (11 + 5 * unit)
      (omega arith)

abbrev limiter : PerHostLimiter
limiter = record { buckets = insert (codes "a") bucket []; rate = 2; burst = 5 }

abbrev host_calls : List HostCall
host_calls =
    record { host = codes "b"; created = 15; call = record { tokens = 1; since = 15; now = 15 } }
    ∷ record { host = codes "a"; created = 20; call = record { tokens = 3; since = 20; now = 21 } }
    ∷ []

host_verdicts-verdicts_example :
    host_verdicts (codes "a") limiter host_calls ≡ verdicts bucket (calls_of (codes "a") host_calls)
host_verdicts-verdicts_example =
    host_verdicts-verdicts (codes "a") limiter bucket host_calls
      (lookup-insert_self (codes "a") bucket [])

abbrev format : ℕ → String
format n = "2026-01-01T00:00:00Z"
