-- ===== src/RateLimit.antt =====
-- internal/ratelimit/ratelimit.go: token buckets, one for each host.
-- Tokens are counted in thousand millionths: time is in nanoseconds and the rate in tokens for a
-- second, so `elapsed * rate` is a whole number of them. The source counts in float64; its rounding
-- is not modelled. A call is given the clock's readings, in the order in which it takes them.
pub mod Bounds
pub mod Hosts
use scopepilot.Prelude.{
  ℕ, zero, suc, ◌+◌, ◌-◌, ◌*◌, ◌^◌, ◌≤◌, ◌<◌, ◌≡◌, refl, Bool, true, false, List, [], ◌∷◌, Option,
  none, some, arith, leb, ltb, if◌then◌else◌, lookup, insert, erase, map,
}
use scopepilot.Text.{Text, codes, text_keys}

-- One token.
abbrev pub unit : ℕ
unit = 10 ^ 9

-- TokenBucket, and its unexported alias tokenBucket
pub record TokenBucket : Type 0 where
  pub capacity : ℕ
  pub tokens : ℕ
  pub rate : ℕ
  pub last : ℕ

-- NewTokenBucket
unfoldable pub new_token_bucket : ℕ → ℕ → ℕ → TokenBucket
new_token_bucket rate burst now = record {
  capacity = burst;
  tokens = burst * unit;
  rate = rate;
  last = now;
}

-- The refill of AllowN: `since` is the clock at `time.Since`, `now` at `time.Now`.
pub refill : TokenBucket → ℕ → ℕ → TokenBucket
refill tb since now =
    let full = tb.tokens + (since - tb.last) * tb.rate in
    let cap = tb.capacity * unit in
    record tb { tokens = if ltb cap full then cap else full; last = now }

-- TokenBucket.AllowN
unfoldable pub allow_n : TokenBucket → ℕ → ℕ → ℕ → TokenBucket × Bool
unfolding refill
allow_n tb n since now =
    let b = refill tb since now in
    if leb (n * unit) b.tokens
    then (record b { tokens = b.tokens - n * unit }, true)
    else (b, false)

-- TokenBucket.Allow
unfoldable pub allow : TokenBucket → ℕ → ℕ → TokenBucket × Bool
unfolding allow_n
allow tb since now = allow_n tb 1 since now

pub record PerHostLimiter : Type 0 where
  pub buckets : List (Text × TokenBucket)
  pub rate : ℕ
  pub burst : ℕ

-- NewPerHostLimiter
unfoldable pub new_per_host_limiter : ℕ → ℕ → PerHostLimiter
new_per_host_limiter rate burst = record { buckets = []; rate = rate; burst = burst }

abbrev pub stored : PerHostLimiter → Text → ℕ → Option TokenBucket → PerHostLimiter × TokenBucket
stored l h now (some b) = (l, b)
stored l h now none =
    let b = new_token_bucket l.rate l.burst now in (record l { buckets = insert h b l.buckets }, b)

-- getOrCreateBucket
unfoldable pub get_or_create_bucket : PerHostLimiter → Text → ℕ → PerHostLimiter × TokenBucket
unfolding new_token_bucket
get_or_create_bucket l h now = stored l h now (lookup h l.buckets)

-- PerHostLimiter.AllowN. The bucket is shared: what the call does to it stays in the map.
unfoldable pub host_allow_n : PerHostLimiter → Text → ℕ → ℕ → ℕ → ℕ → PerHostLimiter × Bool
unfolding get_or_create_bucket
host_allow_n l h n created since now =
    let (l', b) = get_or_create_bucket l h created in
    let (b', allowed) = allow_n b n since now in
    (record l' { buckets = insert h b' l'.buckets }, allowed)

-- PerHostLimiter.Allow
unfoldable pub host_allow : PerHostLimiter → Text → ℕ → ℕ → ℕ → PerHostLimiter × Bool
unfolding host_allow_n
host_allow l h created since now = host_allow_n l h 1 created since now

pub record HostSnapshot : Type 0 where
  pub host : Text
  pub tokens : ℕ
  pub capacity : ℕ
  pub rate_per_second : ℕ

abbrev pub host_state : Text × TokenBucket → HostSnapshot
host_state (h, b) = record {
  host = h;
  tokens = b.tokens;
  capacity = b.capacity;
  rate_per_second = b.rate;
}

-- Snapshot. Go's order over a map is not defined; the list's stands for any.
unfoldable pub snapshot : PerHostLimiter → List HostSnapshot
snapshot l = map host_state l.buckets

-- Reset
unfoldable pub reset : PerHostLimiter → Text → PerHostLimiter
reset l h = record l { buckets = erase h l.buckets }

-- ResetAll
unfoldable pub reset_all : PerHostLimiter → PerHostLimiter
reset_all l = record l { buckets = [] }

second_token : (allow_n (new_token_bucket 1 1 0) 1 0 0).0.tokens ≡ 0
unfolding allow_n new_token_bucket
second_token = refl
