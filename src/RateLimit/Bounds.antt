-- ===== src/RateLimit/Bounds.antt =====
-- What a token bucket grants over any sequence of calls.
use Prim.Native.Nat.{min}
use native.Mathlib.Nat.{mul-le-mul, mul-le-mul_right}
use scopepilot.Prelude.{
  ℕ, ◌+◌, ◌-◌, ◌*◌, ◌≤◌, ◌<◌, ◌≡◌, ◌↔◌, true, List, [], ◌∷◌, arith, if◌then◌else◌,
}
use scopepilot.RateLimit.{TokenBucket, unit, new_token_bucket, allow_n}

-- A call of AllowN, with the two readings of the clock that it takes.
pub record Call : Type 0 where
  pub tokens : ℕ
  pub since : ℕ
  pub now : ℕ

-- The clock does not run backwards.
abbrev pub IsTimed : ℕ → List Call → Type 0
IsTimed t [] = Unit
IsTimed t (c ∷ cs) = (t ≤ c.since) × (c.since ≤ c.now) × IsTimed c.now cs

-- The clock after the last call.
abbrev pub end_of : ℕ → List Call → ℕ
end_of t [] = t
end_of t (c ∷ cs) = end_of c.now cs

-- The tokens that the calls were granted.
pub granted : TokenBucket → List Call → ℕ
granted tb [] = 0
granted tb (c ∷ cs) =
    let (tb', allowed) = allow_n tb c.tokens c.since c.now in
    (if allowed then c.tokens else 0) + granted tb' cs

-- The bucket never holds more than its capacity.
abbrev pub IsBounded : TokenBucket → Type 0
IsBounded tb = tb.tokens ≤ tb.capacity * unit

one_call :
    (tb : TokenBucket) (n since now : ℕ)
    → let (tb', allowed) = allow_n tb n since now in
      (if allowed then n else 0) * unit + tb'.tokens ≤ tb.tokens + (since - tb.last) * tb.rate
unfolding allow_n
one_call tb n since now = ground arith

same_rate :
    (tb : TokenBucket) (n since now : ℕ)
    → ((allow_n tb n since now).0.rate ≡ tb.rate) × ((allow_n tb n since now).0.last ≡ now)
unfolding allow_n
same_rate tb n since now = ground arith

end-le : (t : ℕ) (cs : List Call) → IsTimed t cs → t ≤ end_of t cs
end-le t [] h = omega arith
end-le t (c ∷ cs) h = omega (arith, end-le c.now cs h.2)

add_mul-le : (a b c r : ℕ) → a + b ≤ c → a * r + b * r ≤ c * r
add_mul-le a b c r h = let m : (a + b) * r ≤ c * r = mul-le-mul_right r h in omega arith

granted_from :
    (tb : TokenBucket) (cs : List Call)
    → IsTimed tb.last cs
    → granted tb cs * unit ≤ tb.tokens + (end_of tb.last cs - tb.last) * tb.rate
unfolding granted
granted_from tb [] h = omega arith
granted_from tb (c ∷ cs) h =
    let tb' = (allow_n tb c.tokens c.since c.now).0 in
    let (rate, last) = same_rate tb c.tokens c.since c.now in
    let timed : IsTimed tb'.last cs = rw last h.2 in
    let later : granted tb' cs * unit ≤ tb'.tokens + (end_of c.now cs - c.now) * tb.rate =
      rw rate at (rw last at (granted_from tb' cs timed)) in
    omega (
      arith,
      one_call tb c.tokens c.since c.now,
      later,
      add_mul-le (c.since - tb.last) (end_of c.now cs - c.now) (end_of c.now cs - tb.last) tb.rate
          (omega (arith, end-le c.now cs h.2)),
    )

-- In the exact units of the model, which leave out the rounding of the code's float64 tokens: over
-- any calls from the moment that a bucket was last used on, the tokens granted are at most the
-- bucket's capacity and `rate` tokens for each second to the last call; the bucket may be any that
-- holds no more than its capacity.
pub granted-le :
    (tb : TokenBucket) (cs : List Call)
    → IsBounded tb
    → IsTimed tb.last cs
    → granted tb cs * unit ≤ tb.capacity * unit + (end_of tb.last cs - tb.last) * tb.rate
granted-le tb cs bounded timed = omega (arith, granted_from tb cs timed)

-- A new bucket holds no more than its capacity, and AllowN keeps it so, whatever the clock reads.
pub allow_n-IsBounded : (tb : TokenBucket) (n since now : ℕ) → IsBounded (allow_n tb n since now).0
unfolding allow_n
allow_n-IsBounded tb n since now = ground arith

pub new_token_bucket-IsBounded : (rate burst now : ℕ) → IsBounded (new_token_bucket rate burst now)
unfolding new_token_bucket
new_token_bucket-IsBounded rate burst now = omega arith

-- AllowN grants n tokens exactly when n is at most the capacity and the tokens held, with those of
-- the time since the last call, cover them. Then it takes n tokens, and else it takes none.
pub allow_n_iff :
    (tb : TokenBucket) (n since now : ℕ)
    → let (tb', allowed) = allow_n tb n since now in
      (((allowed ≡ true)
          ↔ ((n ≤ tb.capacity) × (n * unit ≤ tb.tokens + (since - tb.last) * tb.rate)))
        × (tb'.tokens + (if allowed then n else 0) * unit
            ≡ min (tb.capacity * unit) (tb.tokens + (since - tb.last) * tb.rate))
        × (tb'.last ≡ now))
unfolding allow_n
allow_n_iff tb n since now =
    (((λ h. (ground arith, ground arith)), (λ h. ground arith)), ground arith, ground arith)

-- A client that waits is served: for any bucket with a rate there is a waiting time after which n
-- tokens, if n is at most the capacity, are granted.
pub waiting_allows :
    (tb : TokenBucket) (n : ℕ)
    → n ≤ tb.capacity
    → 0 < tb.rate
    → (since now : ℕ) → tb.last + n * unit ≤ since
    → (allow_n tb n since now).1 ≡ true
waiting_allows tb n fits positive since now waited = (allow_n_iff tb n since now).0.1 (
  fits,
  omega (
    arith,
    mul-le-mul {n₁ = n * unit} {m₁ = 1} {n₂ = since - tb.last} {m₂ = tb.rate} (omega arith)
        positive,
  ),
)
