-- ===== src/CollectSync/Store/Transaction.antt =====
-- A transaction of the SQLite adapter: what it returns with the tables that it commits, or its
-- error, and then nothing is committed.
use burnly.Prelude.{Option, none, some, Result, ok, err}
use burnly.CollectSync.Store.{CollectSyncStoreError}
use burnly.CollectSync.Store.Tables.{Tables}

abbrev pub Transaction : Type 0 → Type 0
Transaction A = Tables → Result (A × Tables) CollectSyncStoreError

abbrev pub return : {A : Type 0} → A → Transaction A
return a tables = ok (a, tables)

abbrev pub throw : {A : Type 0} → CollectSyncStoreError → Transaction A
throw e tables = err e

abbrev pub continue :
    {A B : Type 0}
    → Result (A × Tables) CollectSyncStoreError
    → (A → Transaction B)
    → Result (B × Tables) CollectSyncStoreError
continue (ok (a, tables)) f = f a tables
continue (err e) f = err e

infixl 5 ◌>>=◌ ◌>>◌
unfoldable pub ◌>>=◌ : {A B : Type 0} → Transaction A → (A → Transaction B) → Transaction B
(m >>= f) tables = continue (m tables) f

abbrev pub ◌>>◌ : {A B : Type 0} → Transaction A → Transaction B → Transaction B
m >> n = m >>= λ _. n

-- A result that was computed from what the transaction has read.
unfoldable pub lift : {A : Type 0} → Result A CollectSyncStoreError → Transaction A
lift (ok a) = return a
lift (err e) = throw e

-- `.ok_or(error)?`
abbrev pub or_throw : {A : Type 0} → Option A → CollectSyncStoreError → Transaction A
or_throw none e = lift (err e)
or_throw (some a) e = lift (ok a)

-- A SELECT, and a statement that writes.
unfoldable pub select : {A : Type 0} → (Tables → Result A CollectSyncStoreError) → Transaction A
select query tables = lift (query tables) tables

unfoldable pub execute : (Tables → Result Tables CollectSyncStoreError) → Transaction Unit
execute statement tables = continue (lift (statement tables) tables) (λ tables' _. ok (tt, tables'))
