-- ===== src/Transaction.antt =====
-- `BEGIN IMMEDIATE` … `commit()`, with `except Exception: rollback(); raise` around it.
use event_lead_ops_agent.Prelude.{◌≡◌, Result, ok, err}
use event_lead_ops_agent.Schema.{Db}

-- The body returns its value and the database that it commits; a branch that calls `rollback()`
-- and returns gives back the database that it found. An exception leaves the database as it was.
abbrev pub concluded {ℓ} : {A : Type ℓ} → Db → Result (A × Db) → Result A × Db
concluded db (ok (a, db')) = (ok a, db')
concluded db (err e) = (err e, db)

abbrev pub transaction {ℓ} : {A : Type ℓ} → (Db → Result (A × Db)) → Db → Result A × Db
transaction body db = concluded db (body db)

-- A transaction that returned has committed what its body gave back.
pub concluded-eq_ok {ℓ} :
    {A : Type ℓ} (db : Db) (m : Result (A × Db)) {a : A}
    → (concluded db m).0 ≡ ok a
    → m ≡ ok (a, (concluded db m).1)
concluded-eq_ok db (ok (a, db')) e = cc e
concluded-eq_ok db (err x) e = cc e
