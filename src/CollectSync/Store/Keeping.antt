-- ===== src/CollectSync/Store/Keeping.antt =====
-- What a transaction leaves in the tables.
pub mod Operations
pub mod Acceptance
use mathlib.Core.Path.{subst}
use burnly.Prelude.{
  ◌≡◌, refl, sym, ap, ℕ, Bool, true, false, not, Option, none, some, List, [], ◌∷◌, ◌++◌, map, In,
  Result, ok, err, arith, inl, inr, ◌⊎◌, if◌then◌else◌,
}
use burnly.CollectSync.Store.{CollectSyncAccountKey, CollectSyncStoreError}
use burnly.CollectSync.Store.Tables.{
  OutboxRow, Tables, insert_batch, insert_state, update_state, StateRow,
}
use burnly.CollectSync.Store.Transaction.{
  Transaction, return, continue, ◌>>=◌, lift, or_throw, select, execute,
}

-- Of the tables that a transaction commits.
unfoldable pub After :
    {A : Type 0} → (Tables → Type 0) → Result (A × Tables) CollectSyncStoreError → Type 0
After P (ok (a, tables)) = P tables
After P (err e) = Unit

abbrev pub Preserves : {A : Type 0} → (Tables → Type 0) → Transaction A → Type 0
Preserves P m = (tables : Tables) → P tables → After P (m tables)

module _ (P : Tables → Type 0) where
  continue-After :
      {A B : Type 0} (m : Result (A × Tables) CollectSyncStoreError) (f : A → Transaction B)
      → After P m
      → ((a : A) → Preserves P (f a))
      → After P (continue m f)
  unfolding After
  continue-After (ok (a, tables)) f h k = k a tables h
  continue-After (err e) f h k = tt

  pub bind-Preserves :
      {A B : Type 0} (m : Transaction A) (f : A → Transaction B)
      → Preserves P m
      → ((a : A) → Preserves P (f a))
      → Preserves P (m >>= f)
  unfolding ◌>>=◌
  bind-Preserves m f h k tables p = continue-After (m tables) f (h tables p) k

  pub lift-Preserves : {A : Type 0} (r : Result A CollectSyncStoreError) → Preserves P (lift r)
  unfolding After lift
  lift-Preserves (ok a) tables p = p
  lift-Preserves (err e) tables p = tt

  pub return-Preserves : {A : Type 0} (a : A) → Preserves P (return a)
  unfolding After
  return-Preserves a tables p = p

  pub or_throw-Preserves :
      {A : Type 0} (o : Option A) (e : CollectSyncStoreError) → Preserves P (or_throw o e)
  or_throw-Preserves none e = lift-Preserves (err e)
  or_throw-Preserves (some a) e = lift-Preserves (ok a)

  pub select-Preserves :
      {A : Type 0} (query : Tables → Result A CollectSyncStoreError) → Preserves P (select query)
  unfolding select
  select-Preserves query tables p = lift-Preserves (query tables) tables p

  -- Of the tables that a statement makes.
  abbrev pub Makes : Result Tables CollectSyncStoreError → Type 0
  Makes (ok tables) = P tables
  Makes (err e) = Unit

  executed :
      (r : Result Tables CollectSyncStoreError) (tables : Tables)
      → Makes r
      → After P (continue (lift r tables) (λ tables' _. ok (tt, tables')))
  unfolding After lift
  executed (ok tables') tables h = h
  executed (err e) tables h = tt

  pub execute-Preserves :
      (statement : Tables → Result Tables CollectSyncStoreError)
      → ((tables : Tables) → P tables → Makes (statement tables))
      → Preserves P (execute statement)
  unfolding execute
  execute-Preserves statement h tables p = executed (statement tables) tables (h tables p)

  pub if-Makes :
      (b : Bool) (tables : Tables) (e : CollectSyncStoreError)
      → P tables
      → Makes (if b then ok tables else err e)
  if-Makes true tables e p = p
  if-Makes false tables e p = tt

pub In-left :
    (row : OutboxRow) (rows others : List OutboxRow) → In row rows → In row (rows ++ others)
In-left row [] others i = absurd i
In-left row (r ∷ rows) others (inl e) = inl e
In-left row (r ∷ rows) others (inr i) = inr (In-left row rows others i)

-- A row of the outbox stands in it.
module _ (row : OutboxRow) where
  abbrev pub HasRow : Tables → Type 0
  HasRow tables = In row tables.outbox

  pub insert_state-HasRow :
      (state : StateRow) (tables : Tables)
      → HasRow tables
      → Makes HasRow (insert_state state tables)
  unfolding insert_state
  insert_state-HasRow state tables i = if-Makes HasRow _ _ _ i

  pub update_state-HasRow :
      (account : CollectSyncAccountKey) (change : StateRow → StateRow) (tables : Tables)
      → HasRow tables
      → Makes HasRow (update_state account change tables)
  unfolding update_state
  update_state-HasRow account change tables i = if-Makes HasRow _ _ _ i

  pub insert_batch-HasRow :
      (batch : OutboxRow) (tables : Tables)
      → HasRow tables
      → Makes HasRow (insert_batch batch tables)
  unfolding insert_batch
  insert_batch-HasRow batch tables i = if-Makes HasRow _ _ _ (In-left row tables.outbox _ i)
