-- ===== src/Bootstrap/Runs.antt =====
-- Every operation of the payments service is a sequence of the transactions, so what holds of their
-- interleavings holds while it runs.
use scalable_ecommerce_backe.Prelude.{
  ℕ, ◌≡◌, refl, ◌∙◌, ap, Bool, Option, some, List, [], ◌∷◌, ◌++◌,
}
use scalable_ecommerce_backe.Payments.Model.{Db as PaymentsDb, Gateway}
use scalable_ecommerce_backe.Payments.Service.{
  charge, refund, reconcile, handle_webhook, Payload, Delivery,
}
use scalable_ecommerce_backe.Payments.Rule.{Rule}
use scalable_ecommerce_backe.Payments.Decided.{charge-Safe, refund-Safe}
use scalable_ecommerce_backe.Payments.Settled.{handle_webhook-Safe, reconcile-Safe}
use scalable_ecommerce_backe.Orders.Model.{Db as OrdersDb}
use scalable_ecommerce_backe.Bootstrap.Transactions.{
  Shop, Transaction, create_payment, payment_succeeds, payment_fails, payment_returns, run, run_all,
}

-- From any orders, the transactions lead the payments from one state to the other.
abbrev pub Runs : PaymentsDb → PaymentsDb → Type 0
Runs a b =
    (orders : OrdersDb)
    → (ts : List Transaction) × ((run_all ts (record { orders = orders; payments = a })).payments
        ≡ b)

run_all-append :
    (ts us : List Transaction) (s : Shop) → run_all (ts ++ us) s ≡ run_all us (run_all ts s)
unfolding run_all
run_all-append [] us s = refl
run_all-append (t ∷ ts) us s = run_all-append ts us (run t s)

pub Runs-still : (a : PaymentsDb) → Runs a a
unfolding run_all
Runs-still a orders = ([], refl)

pub Runs-joined : (a b c : PaymentsDb) → Runs a b → Runs b c → Runs a c
Runs-joined a b c f g orders =
    let (ts, there) = f orders in
    let mid : Shop = run_all ts (record { orders = orders; payments = a }) in
    let (us, done) = g mid.orders in
    (
      ts ++ us,
      ap (λ s. s.payments) (run_all-append ts us (record { orders = orders; payments = a }))
          ∙ ap (λ p. (run_all us (record { orders = mid.orders; payments = p })).payments) there
          ∙ done,
    )

-- One transaction.
pub Runs-one :
    (t : Transaction) (a b : PaymentsDb)
    → ((orders : OrdersDb) → (run t (record { orders = orders; payments = a })).payments ≡ b)
    → Runs a b
unfolding run_all
Runs-one t a b h orders = (t ∷ [], h orders)

-- The rule that every operation follows; `now` is the time that the hook's marker gets.
abbrev pub runs_rule : ℕ → (ℕ → Bool) → Rule
unfolding run
runs_rule now hook = record {
  hook = some hook;
  Start = λ db. Unit;
  Keeps = Runs;
  still = λ db f. Runs-still db;
  joined = Runs-joined;
  start = λ a b f. tt;
  made = λ at order_id key amount db f.
      Runs-one (create_payment at order_id key amount) db _ (λ orders. refl);
  succeeded = λ id ref db f. Runs-one (payment_succeeds now hook id ref) db _ (λ orders. refl);
  failed = λ id ref reason db f. Runs-one (payment_fails id ref reason) db _ (λ orders. refl);
  refunded = λ id ref db f. Runs-one (payment_returns id ref) db _ (λ orders. refl);
}

-- Whatever the gateway, the hook and the parameters, each of a charge, a refund, a webhook delivery
-- and a reconciliation changes the payments as some sequence of the transactions does.
pub service-Runs :
    (is_digit : ℕ → Bool) (hook : ℕ → Bool) (gateway : Gateway) (now order_id key amount : ℕ)
    (token : List ℕ) (digest : List ℕ → ℕ → List ℕ → List ℕ) (parse : List ℕ → Option Payload)
    (secret : Option (List ℕ)) (tolerance : ℕ) (d : Delivery) (grace max_age batch : ℕ)
    (db : PaymentsDb)
    → Runs db (charge is_digit (some hook) gateway now order_id key amount token db).1
      × (Runs db (refund gateway key db).1
          × (Runs db (handle_webhook digest parse (some hook) secret tolerance now d db).1
              × Runs db (reconcile (some hook) gateway now grace max_age batch db).1))
unfolding runs_rule
service-Runs is_digit hook gateway now order_id key amount token digest parse secret tolerance d
      grace max_age batch db =
    let rule = runs_rule now hook in
    (
      charge-Safe rule is_digit gateway now order_id key amount token db tt,
      (
        refund-Safe rule gateway key db tt,
        (
          handle_webhook-Safe rule digest parse secret tolerance now d db tt,
          reconcile-Safe rule gateway now grace max_age batch db tt,
        ),
      ),
    )
