-- ===== src/Store/Monad.antt =====
-- A method of a store: it reads and changes the database, and returns or raises.
use nebius_serverless_challe.Prelude.{ℕ, Bool, if◌then◌else◌}
use nebius_serverless_challe.Store.Database.{Database}

-- The quota that a `QuotaExceeded` names in its `field`.
pub data Quota : Type 0 where
  active_preparations active_training_jobs daily_training_starts robots setups : Quota

-- The exceptions of store.py, and `sqlite3.IntegrityError` for a violated constraint.
pub data StoreError : Type 0 where
  quota_exceeded : Quota → ℕ → StoreError
  integrity_error : StoreError
  key_error : StoreError
  runtime_error : StoreError

pub data Result (A : Type 0) : Type 0 where
  ok : A → Result A
  err : StoreError → Result A

abbrev pub Action : Type 0 → Type 0
Action A = Database → Result A × Database

module _ {A : Type 0} where
  abbrev pub pure : A → Action A
  pure a db = (ok a, db)

  abbrev pub raise : StoreError → Action A
  raise e db = (err e, db)

  abbrev pub gets : (Database → A) → Action A
  gets f db = (ok (f db), db)

  -- `with self._conn:` after `BEGIN IMMEDIATE`: an exception rolls every write back.
  abbrev pub transaction : Action A → Action A
  transaction m db = let (r, db') = m db in elim r [ ok a ↦ (ok a, db') | err e ↦ (err e, db) ]

infixl 5 ◌>>=◌ ◌>>◌
abbrev pub ◌>>=◌ : {A B : Type 0} → Action A → (A → Action B) → Action B
◌>>=◌ m f db = let (r, db') = m db in elim r [ ok a ↦ f a db' | err e ↦ (err e, db') ]

abbrev pub ◌>>◌ : {A B : Type 0} → Action A → Action B → Action B
m >> k = m >>= λ _. k

abbrev pub raise_if : Bool → StoreError → Action (Unit {0})
raise_if c e db = (if c then err e else ok tt, db)

abbrev pub modify : (Database → Database) → Action (Unit {0})
modify f db = (ok tt, f db)
