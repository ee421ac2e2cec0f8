-- ===== src/Orders/Saga/Accounted.antt =====
-- A pass of the recovery returns, with one outcome for each order that it claimed
-- (`recover_stuck` of src/orders/application/checkout_saga.py).
use scalable_ecommerce_backe.Prelude.{
  ℕ, ◌+◌, ◌≡◌, refl, sym, ◌∙◌, ap, subst, if◌then◌else◌, true, List, [], ◌∷◌, length, ok, err,
  Result, pure, raise, ◌>>=◌, ◌>>◌, arith,
}
use scalable_ecommerce_backe.Orders.Saga.Ports.{Error, Call, Ports, is_exception, catch}
use scalable_ecommerce_backe.Orders.Saga.Recovery.{
  Settled, Counts, no_counts, bump, settle_stuck, retry_refund, or_deferred, each, recover_stuck,
}

-- The orders that the counts speak of.
abbrev pub counted : Counts → ℕ
counted n = n.completed + n.compensated + n.deferred + n.refunded + n.refund_failed

counted-bump : (s : Settled) (n : Counts) → counted (bump s n) ≡ counted n + 1
counted-bump Settled.completed n = omega arith
counted-bump Settled.compensated n = omega arith
counted-bump Settled.deferred n = omega arith
counted-bump Settled.refunded n = omega arith
counted-bump Settled.refund_failed n = omega arith

bind_ok :
    {W A B : Type 0} (m : Call W A) (next : A → Call W B) (w : W) (a : A)
    → (m w).0 ≡ ok a
    → ◌>>=◌ m next w ≡ next a (m w).1
bind_ok {W} {A} {B} m next w a h = after (m w) h
  where
    after : (r : Result Error A × W) → r.0 ≡ ok a → ◌>>=◌ (λ (_ : W). r) next w ≡ next a r.1
    after (r, t) e = subst (λ x. ◌>>=◌ (λ (_ : W). (x, t)) next w ≡ next a t) (sym e) refl

module _ {W : Type 0} (ports : Ports W) (rolls_back : (w : W) → (ports.rollback w).0 ≡ ok tt) where
  -- Nothing cancels the call from outside.
  abbrev pub Undisturbed : (ℕ → Call W Settled) → Type 0
  Undisturbed settle =
      (id : ℕ) (w : W) (e : Error) → (settle id w).0 ≡ err e → is_exception e ≡ true

  or_deferred-answers :
      (m : Call W Settled) (w : W)
      → ((e : Error) → (m w).0 ≡ err e → is_exception e ≡ true)
      → (s : Settled) × ((or_deferred ports m w).0 ≡ ok s)
  or_deferred-answers m w spared = after (m w) spared
    where
      deferring : Error → Call W Settled
      deferring e = if is_exception e then ports.rollback >> pure Settled.deferred else raise e

      after :
          (r : Result Error Settled × W)
          → ((e : Error) → r.0 ≡ err e → is_exception e ≡ true)
          → (s : Settled) × ((catch (λ (_ : W). r) deferring w).0 ≡ ok s)
      after (ok s, t) p = (s, refl)
      after (err e, t) p = (
        Settled.deferred,
        subst
            (λ b.
              ((if b then ports.rollback >> pure Settled.deferred else raise e) t).0
              ≡ ok Settled.deferred)
            (sym (p e refl))
            (ap (λ x. x.0)
              (bind_ok ports.rollback (λ _. pure Settled.deferred) t tt (rolls_back t))),
      )

  -- The pass over these orders answers, and counts one outcome for each.
  abbrev CountsAll : (ℕ → Call W Settled) → List ℕ → Counts → W → Type 0
  CountsAll settle ids n w =
      (m : Counts) × (((each ports settle ids n w).0 ≡ ok m) × (counted m ≡ counted n + length ids))

  counts_one_more :
      (settle : ℕ → Call W Settled)
      → Undisturbed settle
      → (id : ℕ) (ids : List ℕ) → ((n : Counts) (w : W) → CountsAll settle ids n w)
      → (n : Counts) (w : W) → CountsAll settle (id ∷ ids) n w
  counts_one_more settle spared id ids rest n w = (last.0, (ap (λ x. x.0) step ∙ last.1.0, sums))
    where
      one : (s : Settled) × ((or_deferred ports (settle id) w).0 ≡ ok s)
      one = or_deferred-answers (settle id) w (spared id w)

      last : CountsAll settle ids (bump one.0 n) (or_deferred ports (settle id) w).1
      last = rest (bump one.0 n) (or_deferred ports (settle id) w).1

      step :
          each ports settle (id ∷ ids) n w
          ≡ each ports settle ids (bump one.0 n) (or_deferred ports (settle id) w).1
      step =
          bind_ok (or_deferred ports (settle id)) (λ s. each ports settle ids (bump s n)) w one.0
            one.1

      sums : counted last.0 ≡ counted n + length (id ∷ ids)
      sums = last.1.1 ∙ ap (λ k. k + length ids) (counted-bump one.0 n) ∙ omega arith

  each-counts :
      (settle : ℕ → Call W Settled)
      → Undisturbed settle
      → (ids : List ℕ) (n : Counts) (w : W) → CountsAll settle ids n w
  each-counts settle spared [] n w = (n, (refl, omega arith))
  each-counts settle spared (id ∷ ids) n w =
      counts_one_more settle spared id ids (each-counts settle spared ids) n w

  -- If the rollback works, nothing cancels the pass from outside and both claims answer, then a pass
  -- returns, whatever the other calls raise: the counts it answers with speak of as many outcomes as
  -- the two claims answered with orders, one for each.
  pub recover_stuck-counts :
      (cutoff batch_size : ℕ)
      → Undisturbed (settle_stuck ports cutoff)
      → Undisturbed (retry_refund ports)
      → ((w : W) → (ids : List ℕ) × ((ports.claim_stuck_pending cutoff batch_size w).0 ≡ ok ids))
      → ((w : W)
          → (ids : List ℕ) × ((ports.claim_cancelled_with_pending_refund cutoff batch_size w).0
              ≡ ok ids))
      → (w : W)
      → (stuck : List ℕ) × (((ports.claim_stuck_pending cutoff batch_size w).0 ≡ ok stuck)
          × ((v : W) × ((refunds : List ℕ) × (((ports.claim_cancelled_with_pending_refund cutoff
                      batch_size v).0
                    ≡ ok refunds)
                  × ((n : Counts) × (((recover_stuck ports cutoff batch_size w).0 ≡ ok n)
                        × (counted n ≡ length stuck + length refunds)))))))
  unfolding recover_stuck
  recover_stuck-counts cutoff batch_size settles retries pending_claim refund_claim w = (
    stuck.0,
    (
      stuck.1,
      (
        v,
        (
          refunds.0,
          (
            refunds.1,
            (
              last.0,
              (
                ap (λ x. x.0) steps ∙ last.1.0,
                last.1.1 ∙ ap (λ k. k + length refunds.0) first.1.1 ∙ omega arith,
              ),
            ),
          ),
        ),
      ),
    ),
  )
    where
      stuck : (ids : List ℕ) × ((ports.claim_stuck_pending cutoff batch_size w).0 ≡ ok ids)
      stuck = pending_claim w

      w1 : W
      w1 = (ports.claim_stuck_pending cutoff batch_size w).1

      first : CountsAll (settle_stuck ports cutoff) stuck.0 no_counts w1
      first = each-counts (settle_stuck ports cutoff) settles stuck.0 no_counts w1

      v : W
      v = (each ports (settle_stuck ports cutoff) stuck.0 no_counts w1).1

      refunds :
          (ids : List ℕ) × ((ports.claim_cancelled_with_pending_refund cutoff batch_size v).0
            ≡ ok ids)
      refunds = refund_claim v

      w2 : W
      w2 = (ports.claim_cancelled_with_pending_refund cutoff batch_size v).1

      last : CountsAll (retry_refund ports) refunds.0 first.0 w2
      last = each-counts (retry_refund ports) retries refunds.0 first.0 w2

      retry : Counts → List ℕ → Call W Counts
      retry n ids = each ports (retry_refund ports) ids n

      claims : Counts → Call W Counts
      claims n = ports.claim_cancelled_with_pending_refund cutoff batch_size >>= retry n

      settling : List ℕ → Call W Counts
      settling ids = each ports (settle_stuck ports cutoff) ids no_counts >>= claims

      steps : recover_stuck ports cutoff batch_size w ≡ retry first.0 refunds.0 w2
      steps =
          bind_ok (ports.claim_stuck_pending cutoff batch_size) settling w stuck.0 stuck.1
          ∙ bind_ok (each ports (settle_stuck ports cutoff) stuck.0 no_counts) claims w1 first.0
              first.1.0
          ∙ bind_ok (ports.claim_cancelled_with_pending_refund cutoff batch_size) (retry first.0) v
              refunds.0 refunds.1
