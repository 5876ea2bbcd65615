-- ===== src/CollectSync/Store/Registration.antt =====
-- The registration of a device in collect_sync_store.rs.
use mathlib.Core.Path.{subst}
use burnly.Prelude.{
  sym, map, ◌≡◌, refl, false, not, ◌||◌, Option, none, some, List, [], ◌∷◌, all, Result, ok, err,
  arith, if◌then◌else◌,
}
use burnly.Prelude.Text.{Text}
use burnly.Prelude.Int.{ℤ, pos}
use burnly.CollectSync.Store.{
  CollectSyncAccountKey, CollectSyncState, CollectSyncStoreError, backend, not_found,
}
use burnly.CollectSync.Store.Tables.{
  StateRow, Tables, Libraries, is_state_of, change_state, state_checks, update_state,
}
use burnly.CollectSync.Store.Transaction.{
  Transaction, continue, ◌>>=◌, lift, or_throw, select, execute,
}
use burnly.CollectSync.Store.State.{
  find_row, some_state, read_found, load_state, loaded, or_insert, ensure_state,
  set_device_registration,
}

-- Of the answer of a transaction and the tables that it commits.
unfoldable pub Returns :
    {A : Type 0} → (A → Tables → Type 0) → Result (A × Tables) CollectSyncStoreError → Type 0
Returns R (ok (a, tables)) = R a tables
Returns R (err e) = Unit

continue-Returns :
    {A B : Type 0} (R : A → Tables → Type 0) (S : B → Tables → Type 0)
    (m : Result (A × Tables) CollectSyncStoreError) (f : A → Transaction B)
    → Returns R m
    → ((a : A) (tables : Tables) → R a tables → Returns S (f a tables))
    → Returns S (continue m f)
unfolding Returns
continue-Returns R S (ok (a, tables)) f h k = k a tables h
continue-Returns R S (err e) f h k = tt

pub bind-Returns :
    {A B : Type 0} (R : A → Tables → Type 0) (S : B → Tables → Type 0) (m : Transaction A)
    (f : A → Transaction B) (tables : Tables)
    → Returns R (m tables)
    → ((a : A) (tables' : Tables) → R a tables' → Returns S (f a tables'))
    → Returns S ((m >>= f) tables)
unfolding ◌>>=◌
bind-Returns R S m f tables h k = continue-Returns R S (m tables) f h k

anything : {A : Type 0} (r : Result (A × Tables) CollectSyncStoreError) → Returns (λ _ _. Unit) r
unfolding Returns
anything (ok (a, tables)) = tt
anything (err e) = tt

module _ (lib : Libraries) (account : CollectSyncAccountKey) where
  -- The table of the states has a row of the account.
  abbrev IsKnown : Tables → Type 0
  IsKnown tables = (row : StateRow) × (find_row account tables.states ≡ some row)

  abbrev KnownIf : Option CollectSyncState → Tables → Type 0
  KnownIf none tables = Unit
  KnownIf (some state) tables = IsKnown tables

  state-KnownIf :
      (r : Result CollectSyncState CollectSyncStoreError) (tables : Tables)
      → IsKnown tables
      → Returns KnownIf (lift (some_state lib r) tables)
  unfolding Returns lift
  state-KnownIf (ok state) tables known = known
  state-KnownIf (err e) tables known = tt

  found-KnownIf :
      (o : Option StateRow) (tables : Tables)
      → find_row account tables.states ≡ o
      → Returns KnownIf (lift (read_found lib account o) tables)
  unfolding Returns lift
  found-KnownIf none tables e = tt
  found-KnownIf (some row) tables e = state-KnownIf _ tables (row, e)

  load_state-KnownIf : (tables : Tables) → Returns KnownIf (load_state lib account tables)
  unfolding load_state select
  load_state-KnownIf tables = found-KnownIf _ tables refl

  abbrev Known : CollectSyncState → Tables → Type 0
  Known state tables = IsKnown tables

  or_throw-Known :
      (found : Option CollectSyncState) (tables : Tables)
      → KnownIf found tables
      → Returns Known (or_throw found not_found tables)
  unfolding Returns lift
  or_throw-Known none tables known = tt
  or_throw-Known (some state) tables known = known

  loaded-Known : (tables : Tables) → Returns Known (loaded lib account tables)
  loaded-Known tables =
      bind-Returns KnownIf Known _ _ tables (load_state-KnownIf tables) or_throw-Known

  or_insert-Known :
      (now_ms : ℤ) (found : Option CollectSyncState) (tables : Tables)
      → KnownIf found tables
      → Returns Known (or_insert lib account now_ms found tables)
  unfolding Returns lift
  or_insert-Known now_ms (some state) tables known = known
  or_insert-Known now_ms none tables known =
      bind-Returns (λ _ _. Unit) Known _ _ tables (anything _) (λ _ tables' _. loaded-Known tables')

  pub ensure_state-Known :
      (now_ms : ℤ) (tables : Tables) → Returns Known (ensure_state lib account now_ms tables)
  unfolding ensure_state
  ensure_state-Known now_ms tables =
      bind-Returns KnownIf Known _ _ tables (load_state-KnownIf tables) (or_insert-Known now_ms)

  -- An update that breaks a check in every row of the account fails when there is such a row.
  refused :
      (change : StateRow → StateRow) (rows : List StateRow) (row : StateRow)
      → ((r : StateRow) → state_checks (change r) ≡ false)
      → find_row account rows ≡ some row
      → all (λ r. not (is_state_of account r) || state_checks (change r)) rows ≡ false
  refused change [] row h e = absurd (ground arith)
  refused change (r ∷ rows) row h e = ground (arith, h r, refused change rows row h)

  pub update-fails :
      (change : StateRow → StateRow) (tables : Tables)
      → ((r : StateRow) → state_checks (change r) ≡ false)
      → IsKnown tables
      → Returns (λ _ _. ⊥) (execute (update_state account change) tables)
  unfolding Returns lift execute update_state
  update-fails change tables h known =
      subst
        (λ b.
          Returns (λ _ _. ⊥)
            (continue
              (lift
                (if b
                  then ok
                      (record tables { states = map (change_state account change) tables.states })
                  else err backend)
                tables)
              (λ tables' _. ok (tt, tables'))))
        (sym (refused change tables.states known.0 h known.1)) tt

fails :
    {A : Type 0} (r : Result (A × Tables) CollectSyncStoreError)
    → Returns (λ _ _. ⊥) r
    → (e : CollectSyncStoreError) × (r ≡ err e)
unfolding Returns
fails (ok (a, tables)) h = absurd h
fails (err e) h = (e, refl)

-- The row with the registration that the service writes breaks a check.
refused-zero :
    (fingerprint : Text) (now_ms : ℤ) (row : StateRow)
    → state_checks (record row {
      device_metadata_fingerprint = some fingerprint;
      device_registered_revision = some (pos 0);
      updated_at_ms = now_ms;
    })
      ≡ false
unfolding state_checks
refused-zero fingerprint now_ms row = ground arith

-- A registration with revision 0 is never stored, whatever the tables hold: the service's
-- `set_device_registration(account, "invalidate", 0, now)` always fails.
pub set_device_registration-refuses :
    (lib : Libraries) (account : CollectSyncAccountKey) (fingerprint : Text) (now_ms : ℤ)
    (tables : Tables)
    → (e : CollectSyncStoreError) × (set_device_registration lib account fingerprint
          (pos 0)
          now_ms
          tables
        ≡ err e)
unfolding set_device_registration
set_device_registration-refuses lib account fingerprint now_ms tables = fails _ (
    bind-Returns (Known lib account) (λ _ _. ⊥) _ _ tables
      (ensure_state-Known lib account now_ms tables)
      (λ _ tables' known.
        update-fails lib account _ tables' (refused-zero fingerprint now_ms) known))
