-- ===== src/Shared/UnitOfWork.antt =====
-- `UnitOfWork.transaction` (src/shared/db/unit_of_work.py), for one session: at depth 0 the block
-- commits on a clean exit and is rolled back on an exception; deeper it is a SAVEPOINT, released
-- or rolled back alike. So the block's writes are kept where it returns and undone where it raises.
use scalable_ecommerce_backe.Prelude.{ok, err, Exec}

abbrev pub transaction : {E S A : Type 0} → Exec E S A → Exec E S A
transaction body s = elim (body s).0 [ ok a ↦ body s | err e ↦ (err e, s) ]
