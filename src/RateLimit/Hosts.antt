-- ===== src/RateLimit/Hosts.antt =====
-- The limiter of many hosts is, for each host, a bucket of its own.
use scopepilot.Prelude.{
  ℕ, ◌≤◌, ◌≡◌, refl, sym, ap₂, ◌∙◌, ◌≢◌, Bool, true, false, List, [], ◌∷◌, Option, none, some,
  arith, if◌then◌else◌, lookup, erase, lookup-insert_self, lookup-insert_ne, lookup-erase,
  lookup-erase_ne, same, same_iff, same_refl, Bool-cases, Option-cases, inl, inr,
}
use scopepilot.Text.{Text, text_keys}
use scopepilot.RateLimit.{
  TokenBucket, PerHostLimiter, new_token_bucket, allow_n, host_allow_n, reset,
}
use scopepilot.RateLimit.Bounds.{Call}

fresh_allows :
    (rate burst created n since now : ℕ)
    → n ≤ burst
    → (allow_n (new_token_bucket rate burst created) n since now).1 ≡ true
unfolding allow_n new_token_bucket
fresh_allows rate burst created n since now fits = ground arith

-- A call of AllowN(host, …), with the clock when a bucket would be created.
pub record HostCall : Type 0 where
  pub host : Text
  pub created : ℕ
  pub call : Call

-- The bucket that a call for `h` uses.
abbrev pub bucket_or_new : PerHostLimiter → ℕ → Option TokenBucket → TokenBucket
bucket_or_new l now none = new_token_bucket l.rate l.burst now
bucket_or_new l now (some b) = b

-- What a call answers, and what it leaves in the map, at every host.
pub host_allow_n_lem :
    (l : PerHostLimiter) (h : Text) (n created since now : ℕ)
    → let b = bucket_or_new l created (lookup h l.buckets) in
      let (l', allowed) = host_allow_n l h n created since now in
      (allowed ≡ (allow_n b n since now).1)
      × (lookup h l'.buckets ≡ some (allow_n b n since now).0)
      × ((j : Text) → h ≢ j → lookup j l'.buckets ≡ lookup j l.buckets)
      × (l'.rate ≡ l.rate)
      × (l'.burst ≡ l.burst)
unfolding host_allow_n
host_allow_n_lem l h n created since now = elim (Option-cases (lookup h l.buckets)) [
  | inl e ↦ rw e (
    refl,
    lookup-insert_self h _ _,
    (λ j ne. lookup-insert_ne h j _ _ ne ∙ lookup-insert_ne h j _ _ ne),
    refl,
    refl,
  )
  | inr (b, e) ↦
      rw e (refl, lookup-insert_self h _ _, (λ j ne. lookup-insert_ne h j _ _ ne), refl, refl)
]

-- The answers that the limiter gives to the calls for one host.
pub host_verdicts : Text → PerHostLimiter → List HostCall → List Bool
host_verdicts h l [] = []
host_verdicts h l (e ∷ es) =
    let (l', allowed) = host_allow_n l e.host e.call.tokens e.created e.call.since e.call.now in
    if same h e.host then allowed ∷ host_verdicts h l' es else host_verdicts h l' es

-- The calls for one host.
pub calls_of : Text → List HostCall → List Call
calls_of h [] = []
calls_of h (e ∷ es) = if same h e.host then e.call ∷ calls_of h es else calls_of h es

-- The answers of a single bucket.
pub verdicts : TokenBucket → List Call → List Bool
verdicts tb [] = []
verdicts tb (c ∷ cs) =
    let (tb', allowed) = allow_n tb c.tokens c.since c.now in allowed ∷ verdicts tb' cs

own_call :
    (h : Text) (l : PerHostLimiter) (b : TokenBucket) (c : HostCall)
    → lookup h l.buckets ≡ some b
    → h ≡ c.host
    → let (l', allowed) = host_allow_n l c.host c.call.tokens c.created c.call.since c.call.now in
      let (b', answer) = allow_n b c.call.tokens c.call.since c.call.now in
      (allowed ≡ answer) × (lookup h l'.buckets ≡ some b')
own_call h l b c e s =
    let found : lookup c.host l.buckets ≡ some b = rw (← s) e in
    let lem = host_allow_n_lem l c.host c.call.tokens c.created c.call.since c.call.now in
    (rw found at lem.0, rw s (rw found at lem.1))

other_call :
    (h : Text) (l : PerHostLimiter) (b : TokenBucket) (c : HostCall)
    → lookup h l.buckets ≡ some b
    → same h c.host ≡ false
    → let l' = (host_allow_n l c.host c.call.tokens c.created c.call.since c.call.now).0 in
      lookup h l'.buckets ≡ some b
other_call h l b c e s =
    let lem = host_allow_n_lem l c.host c.call.tokens c.created c.call.since c.call.now in
    lem.2 h (λ p. cc ((same_iff h c.host).1 (sym p))) ∙ e

-- What the limiter answers to the calls for a host with a bucket is what that bucket alone answers
-- to those calls: calls for other hosts, in any order between them, change nothing.
pub host_verdicts-verdicts :
    (h : Text) (l : PerHostLimiter) (b : TokenBucket) (es : List HostCall)
    → lookup h l.buckets ≡ some b
    → host_verdicts h l es ≡ verdicts b (calls_of h es)
unfolding host_verdicts verdicts calls_of
host_verdicts-verdicts h l b [] e = refl
host_verdicts-verdicts h l b (c ∷ es) e = elim (Bool-cases (same h c.host)) [
  | inl s ↦
      let (answer, kept) = own_call h l b c e ((same_iff h c.host).0 s) in
      rw s (
        ap₂ ◌∷◌ answer (
          host_verdicts-verdicts h
            (host_allow_n l c.host c.call.tokens c.created c.call.since c.call.now).0
            (allow_n b c.call.tokens c.call.since c.call.now).0 es kept))
  | inr s ↦ rw s (
      host_verdicts-verdicts h
        (host_allow_n l c.host c.call.tokens c.created c.call.since c.call.now).0 b es
        (other_call h l b c e s))
]

-- After Reset the next call for the host is granted any tokens up to the burst, and the buckets of
-- all other hosts are as they were.
pub reset_allows :
    (l : PerHostLimiter) (h : Text) (n created since now : ℕ)
    → n ≤ l.burst
    → ((host_allow_n (reset l h) h n created since now).1 ≡ true)
      × ((j : Text) → h ≢ j → lookup j (reset l h).buckets ≡ lookup j l.buckets)
unfolding reset
reset_allows l h n created since now fits = (
  (host_allow_n_lem (reset l h) h n created since now).0 ∙ granted_new,
  λ j ne. lookup-erase_ne h j l.buckets ne,
)
  where
    missing : lookup h (erase h l.buckets) ≡ none
    missing = lookup-erase h h l.buckets ∙ rw (same_refl h)

    fresh : TokenBucket
    fresh = new_token_bucket l.rate l.burst created

    granted_new :
        (allow_n (bucket_or_new (reset l h) created (lookup h (erase h l.buckets))) n since now).1
        ≡ true
    granted_new = rw missing (fresh_allows l.rate l.burst created n since now fits)
