-- ===== src/Shared/RateLimit/Bounds.antt =====
-- What a token bucket admits (src/shared/ratelimit/token_bucket.py).
use native.Mathlib.Nat.{add-mul, mul-le-mul_right}
use scalable_ecommerce_backe.Prelude.{
  ℕ, ◌+◌, ◌-◌, ◌*◌, ◌≤◌, ◌≡◌, refl, sym, ap, ◌∙◌, ltb, min, if◌then◌else◌, Bool, true, false, none,
  some, List, [], ◌∷◌, All, arith,
}
use scalable_ecommerce_backe.Shared.RateLimit.{Config, Bucket, unit, refilled, spend, allow, serve}

-- What a microsecond restores, over an interval.
restored : (from to rate : ℕ) → from ≤ to → (to - from) * rate + from * rate ≡ to * rate
restored from to rate h = sym (add-mul (to - from) from rate) ∙ ap (λ x. x * rate) (omega arith)

abbrev Fits : Config → Bucket → Type 0
Fits c b = b.tokens ≤ c.capacity * unit c

abbrev price : Config → Bool → ℕ
price c true = unit c
price c false = 0

spend-pays :
    (wait : ℕ → ℕ) (c : Config) (b : Bucket)
    → ((price c (spend wait c b).0.allowed + (spend wait c b).1.tokens ≡ b.tokens)
        × ((spend wait c b).1.ts ≡ b.ts))
unfolding spend
spend-pays wait c b = grind arith

refilled-Fits : (c : Config) (now : ℕ) (b : Bucket) → Fits c b → Fits c (refilled c now (some b))
unfolding refilled
refilled-Fits c now b h = ground arith

refilled-restores :
    (c : Config) (now : ℕ) (b : Bucket)
    → (refilled c now (some b)).tokens + b.ts * c.refill
      ≤ b.tokens + (refilled c now (some b)).ts * c.refill
unfolding refilled
refilled-restores c now b = after (ltb b.ts now) refl
  where
    after :
        (k : Bool)
        → ltb b.ts now ≡ k
        → (if k
              then record {
                tokens = min (c.capacity * unit c) (b.tokens + (now - b.ts) * c.refill);
                ts = now;
              }
              else b).tokens
            + b.ts * c.refill
          ≤ b.tokens
            + (if k
                then record {
                  tokens = min (c.capacity * unit c) (b.tokens + (now - b.ts) * c.refill);
                  ts = now;
                }
                else b).ts
              * c.refill
    after false h = omega arith
    after true h =
        let e : (now - b.ts) * c.refill + b.ts * c.refill ≡ now * c.refill =
          restored b.ts now c.refill (ground arith) in
        omega arith

refilled-ts :
    (c : Config) (now last : ℕ) (b : Bucket)
    → b.ts ≤ last
    → now ≤ last
    → (refilled c now (some b)).ts ≤ last
unfolding refilled
refilled-ts c now last b h k = ground arith

-- One call: what it admits is paid for by the tokens and by what the clock restored.
allow-pays :
    (wait : ℕ → ℕ) (c : Config) (now : ℕ) (b : Bucket)
    → price c (allow wait c now (some b)).0.allowed
        + (allow wait c now (some b)).1.tokens
        + b.ts * c.refill
      ≤ b.tokens + (allow wait c now (some b)).1.ts * c.refill
unfolding allow
allow-pays wait c now b =
    let paid = spend-pays wait c (refilled c now (some b)) in
    let grown = refilled-restores c now b in
    let same : (spend wait c (refilled c now (some b))).1.ts * c.refill
        ≡ (refilled c now (some b)).ts * c.refill =
      ap (λ x. x * c.refill) paid.1 in
    let total = paid.0 in omega arith

allow-Fits :
    (wait : ℕ → ℕ) (c : Config) (now : ℕ) (b : Bucket)
    → Fits c b
    → Fits c (allow wait c now (some b)).1
unfolding allow
allow-Fits wait c now b h =
    let paid = (spend-pays wait c (refilled c now (some b))).0 in
    let full = refilled-Fits c now b h in omega arith

allow-ts :
    (wait : ℕ → ℕ) (c : Config) (now last : ℕ) (b : Bucket)
    → b.ts ≤ last
    → now ≤ last
    → (allow wait c now (some b)).1.ts ≤ last
unfolding allow
allow-ts wait c now last b h k =
    let same = (spend-pays wait c (refilled c now (some b))).1 in
    let early = refilled-ts c now last b h k in omega arith

serve-Fits :
    (wait : ℕ → ℕ) (c : Config) (times : List ℕ) (b : Bucket)
    → Fits c b
    → Fits c (serve wait c times b).1
unfolding serve
serve-Fits wait c [] b h = h
serve-Fits wait c (now ∷ later) b h =
    serve-Fits wait c later (allow wait c now (some b)).1 (allow-Fits wait c now b h)

one_more :
    (c : Config) (k : Bool) (n : ℕ) → (if k then n + 1 else n) * unit c ≡ n * unit c + price c k
one_more c true n = add-mul n 1 (unit c) ∙ omega arith
one_more c false n = omega arith

serve-pays :
    (wait : ℕ → ℕ) (c : Config) (times : List ℕ) (last : ℕ) (b : Bucket)
    → b.ts ≤ last
    → All (λ t. t ≤ last) times
    → ((serve wait c times b).0 * unit c + (serve wait c times b).1.tokens + b.ts * c.refill
        ≤ b.tokens + (serve wait c times b).1.ts * c.refill)
      × ((serve wait c times b).1.ts ≤ last)
unfolding serve
serve-pays wait c [] last b h a = (omega arith, h)
serve-pays wait c (now ∷ later) last b h (early, a) =
    let rest =
      serve-pays wait c later last (allow wait c now (some b)).1
        (allow-ts wait c now last b h early) a in
    let first = allow-pays wait c now b in
    let bound = rest.0 in
    let sum =
      one_more c (allow wait c now (some b)).0.allowed
        (serve wait c later (allow wait c now (some b)).1).0 in
    (omega arith, rest.1)

-- The bucket of a subject, from its first call and after some calls.
abbrev pub after_calls : (ℕ → ℕ) → Config → ℕ → List ℕ → Bucket
after_calls wait c first times = (serve wait c times (refilled c first none)).1

fresh-Fits : (c : Config) (first : ℕ) → Fits c (refilled c first none)
unfolding refilled
fresh-Fits c first = omega arith

fresh_ts : (c : Config) (first last : ℕ) → first ≤ last → (refilled c first none).ts ≤ last
unfolding refilled
fresh_ts c first last h = h

-- While a subject's key lives: over the calls of a window, after any calls before it, whose clocks
-- may run backward but are not past `last`, at most the capacity is admitted and what is restored from
-- the latest clock seen before the window until `last`, whatever wait a refusal is told. A token is
-- `unit c` parts.
pub serve-IsBounded :
    (wait : ℕ → ℕ) (c : Config) (first last : ℕ) (earlier window : List ℕ)
    → first ≤ last
    → All (λ t. t ≤ last) earlier
    → All (λ t. t ≤ last) window
    → (serve wait c window (after_calls wait c first earlier)).0 * unit c
        + (after_calls wait c first earlier).ts * c.refill
      ≤ c.capacity * unit c + last * c.refill
serve-IsBounded wait c first last earlier window h a w =
    let start =
      serve-pays wait c earlier last (refilled c first none) (fresh_ts c first last h) a in
    let full = serve-Fits wait c earlier (refilled c first none) (fresh-Fits c first) in
    let paid = serve-pays wait c window last (after_calls wait c first earlier) start.1 w in
    let bound = paid.0 in let late = mul-le-mul_right c.refill paid.1 in omega arith
