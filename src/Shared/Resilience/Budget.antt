-- ===== src/Shared/Resilience/Budget.antt =====
-- `ValkeyConcurrencyBudget` (src/shared/resilience.py): its Lua script over the sorted set of
-- permits of one dependency, and the release. A permit's score is the instant that it expires; the
-- key itself expires too. A Valkey fault, which fails open, is `none`.
use scalable_ecommerce_backe.Prelude.{
  ℕ, ◌+◌, ◌<◌, ◌≤◌, ◌≡◌, refl, sym, ap, ◌∙◌, ◌==◌, ◌&&◌, ltb, leb, if◌then◌else◌, Bool, true, false,
  not, Option, none, some, List, [], ◌∷◌, arith, All, length, filter,
}

pub record Permit : Type 0 where
  pub id : ℕ
  pub expiry : ℕ

pub record Budget : Type 0 where
  pub permits : List Permit
  pub expires_at : ℕ

-- The key as the server sees it at an instant: nothing is left once it has expired.
abbrev pub visible : ℕ → Budget → List Permit
visible now b = if leb b.expires_at now then [] else b.permits

-- `ZREMRANGEBYSCORE key -inf now`
abbrev pub reap : ℕ → List Permit → List Permit
reap now ps = filter (λ p. ltb now p.expiry) ps

-- `ZADD` of a new member, and `ZREM`.
abbrev pub zrem : ℕ → List Permit → List Permit
zrem id ps = filter (λ p. not (p.id == id)) ps

-- What the script does once the expired permits are gone.
abbrev pub grant_if : Bool → ℕ → ℕ → ℕ → Budget → List Permit → Bool × Budget
grant_if true ttl id now b live = (false, record b { permits = live })
grant_if false ttl id now b live = (
  true,
  record {
    permits = record { id = id; expiry = now + ttl } ∷ zrem id live;
    expires_at = now + ttl;
  },
)

abbrev pub grant : ℕ → ℕ → ℕ → ℕ → Budget → List Permit → Bool × Budget
grant limit ttl id now b live = grant_if (leb limit (length live)) ttl id now b live

-- `_ACQUIRE_PERMIT_LUA`
unfoldable pub acquire_permit : ℕ → ℕ → ℕ → ℕ → Budget → Bool × Budget
acquire_permit limit ttl id now b = grant limit ttl id now b (reap now (visible now b))

abbrev pub permit_or_shed : ℕ → Bool × Budget → Option ℕ × Budget
permit_or_shed id (true, b) = (some id, b)
permit_or_shed id (false, b) = (none, b)

-- `acquire`: the permit, or nothing where the call is shed; a fault of Valkey leaves the set alone.
unfoldable pub acquire : ℕ → ℕ → Bool → ℕ → ℕ → Budget → Option ℕ × Budget
acquire limit ttl faulty id now b =
    if faulty then (some id, b) else permit_or_shed id (acquire_permit limit ttl id now b)

unfoldable pub release : Bool → ℕ → Budget → Budget
release faulty id b = if faulty then b else record b { permits = zrem id b.permits }

-- The permits that have not expired.
abbrev pub in_flight : ℕ → Budget → ℕ
in_flight now b = length (reap now b.permits)

-- At most the limit of permits is stored, and the key outlives every one of them.
pub record IsBounded (limit : ℕ) (b : Budget) : Type 0 where
  pub bound : length b.permits ≤ limit
  pub outlived : All (λ p. p.expiry ≤ b.expires_at) b.permits

module _ {A : Type 0} (keep : A → Bool) where
  pub length-filter : (xs : List A) → length (filter keep xs) ≤ length xs
  length-filter [] = omega arith
  length-filter (x ∷ xs) = let rest = length-filter xs in ground arith

  pub filter-All {κ} : (P : A → Type κ) (xs : List A) → All P xs → All P (filter keep xs)
  filter-All P [] a = a
  filter-All P (x ∷ xs) a = step (keep x) (filter-All P xs a.1)
    where
      step :
          (b : Bool)
          → All P (filter keep xs)
          → All P (if b then x ∷ filter keep xs else filter keep xs)
      step true rest = (a.0, rest)
      step false rest = rest

-- Whatever the key's expiry removes had expired before.
reap_expired :
    (now limit : ℕ) (ps : List Permit)
    → limit ≤ now
    → All (λ p. p.expiry ≤ limit) ps
    → reap now ps ≡ []
reap_expired now limit [] late a = refl
reap_expired now limit (p ∷ ps) late a =
    let first = a.0 in let rest = reap_expired now limit ps late a.1 in ground arith

reap-visible :
    (limit now : ℕ) (b : Budget) → IsBounded limit b → reap now (visible now b) ≡ reap now b.permits
reap-visible limit now b w =
    step (leb b.expires_at now)
      (λ e. reap_expired now b.expires_at b.permits (ground arith) w.outlived)
  where
    step :
        (d : Bool)
        → (d ≡ true → reap now b.permits ≡ [])
        → reap now (if d then [] else b.permits) ≡ reap now b.permits
    step true gone = sym (gone refl)
    step false gone = refl

-- A call is shed exactly when Valkey answers and as many permits as the limit have not expired, if
-- at most the limit is stored and the key outlives its permits.
pub acquire_sheds :
    (limit ttl : ℕ) (faulty : Bool) (id now : ℕ) (b : Budget)
    → IsBounded limit b
    → (acquire limit ttl faulty id now b).0
      ≡ (if not faulty && leb limit (in_flight now b) then none else some id)
unfolding acquire acquire_permit
acquire_sheds limit ttl true id now b w = refl
acquire_sheds limit ttl false id now b w =
    ap (λ live. (permit_or_shed id (grant limit ttl id now b live)).0) (reap-visible limit now b w)
    ∙ by_count (leb limit (in_flight now b)) (reap now b.permits)
  where
    by_count :
        (d : Bool) (live : List Permit)
        → (permit_or_shed id (grant_if d ttl id now b live)).0 ≡ (if d then none else some id)
    by_count true live = refl
    by_count false live = refl

expiring_later :
    (now later : ℕ) (ps : List Permit)
    → now ≤ later
    → All (λ p. p.expiry ≤ now) ps
    → All (λ p. p.expiry ≤ later) ps
expiring_later now later [] le a = a
expiring_later now later (p ∷ ps) le a =
    (let first = a.0 in omega arith, expiring_later now later ps le a.1)

visible-IsBounded :
    (limit now : ℕ) (b : Budget)
    → IsBounded limit b
    → (length (visible now b) ≤ limit) × All (λ p. p.expiry ≤ b.expires_at) (visible now b)
visible-IsBounded limit now b w = step (leb b.expires_at now)
  where
    step :
        (d : Bool)
        → (length (if d then [] else b.permits) ≤ limit)
          × All (λ p. p.expiry ≤ b.expires_at) (if d then [] else b.permits)
    step true = (omega arith, tt)
    step false = (w.bound, w.outlived)

grant-IsBounded :
    (limit ttl id now : ℕ) (b : Budget) (live : List Permit)
    → b.expires_at ≤ now + ttl
    → length live ≤ limit
    → All (λ p. p.expiry ≤ b.expires_at) live
    → IsBounded limit (grant limit ttl id now b live).1
grant-IsBounded limit ttl id now b live later few a =
    step (leb limit (length live)) (λ e. ground arith)
  where
    step :
        (d : Bool)
        → (d ≡ false → length live < limit)
        → IsBounded limit (grant_if d ttl id now b live).1
    step true below = record { bound = few; outlived = a }
    step false below = record {
      bound =
          let shorter = length-filter (λ p. not (p.id == id)) live in
          let fewer = below refl in omega arith;
      outlived = (
        omega arith,
        filter-All (λ p. not (p.id == id)) (λ p. p.expiry ≤ now + ttl) live
            (expiring_later b.expires_at (now + ttl) live later a),
      );
    }

-- An acquire keeps at most the limit of permits stored and the key alive as long as every one of
-- them, whether it grants, sheds or meets a fault, on a clock that does not step back behind the
-- last grant.
pub acquire-IsBounded :
    (limit ttl : ℕ) (faulty : Bool) (id now : ℕ) (b : Budget)
    → IsBounded limit b
    → b.expires_at ≤ now + ttl
    → IsBounded limit (acquire limit ttl faulty id now b).1
unfolding acquire acquire_permit
acquire-IsBounded limit ttl true id now b w later = w
acquire-IsBounded limit ttl false id now b w later = answered (grant limit ttl id now b live) (
    grant-IsBounded limit ttl id now b live later
      (let shorter = length-filter (λ p. ltb now p.expiry) (visible now b) in
        let few = seen.0 in omega arith)
      (filter-All (λ p. ltb now p.expiry) (λ p. p.expiry ≤ b.expires_at) (visible now b) seen.1))
  where
    live : List Permit
    live = reap now (visible now b)

    seen : (length (visible now b) ≤ limit) × All (λ p. p.expiry ≤ b.expires_at) (visible now b)
    seen = visible-IsBounded limit now b w

    answered : (r : Bool × Budget) → IsBounded limit r.1 → IsBounded limit (permit_or_shed id r).1
    answered (true, c) k = k
    answered (false, c) k = k
