-- ===== src/CollectSync/Store/Keeping/Acceptance.antt =====
-- The outbox under `mark_batch_accepted` of collect_sync_store.rs.
use mathlib.Core.Path.{subst}
use burnly.Prelude.{
  ◌≡◌, sym, ap, ◌∙◌, inl, inr, ℕ, Bool, true, false, List, [], ◌∷◌, map, In, Result, ok, err, ◌==◌,
  length, arith, if◌then◌else◌, Bool-cases, ==_iff,
}
use burnly.Prelude.Text.{text, text_eq}
use burnly.Prelude.Int.{ℤ}
use burnly.CollectSync.Store.{CollectSyncAccountKey, CollectSyncStoreError, not_found}
use burnly.CollectSync.Store.Tables.{OutboxRow, Tables}
use burnly.CollectSync.Store.Transaction.{Transaction, continue, ◌>>=◌, lift, select}
use burnly.CollectSync.Store.Outbox.{
  keep, is_to_accept, change_batch, accepted_row, one_updated, is_left, update_outbox,
  delete_batches, load_batch, mark_batch_accepted,
}
use burnly.CollectSync.Store.Keeping.{
  After, Preserves, Makes, if-Makes, HasRow, bind-Preserves, lift-Preserves, return-Preserves,
  or_throw-Preserves, select-Preserves, execute-Preserves, update_state-HasRow,
}

module _ {A : Type 0} (p : A → Bool) where
  pub In-keep : (x : A) (xs : List A) → p x ≡ true → In x xs → In x (keep p xs)
  unfolding keep
  In-keep x [] h i = absurd i
  In-keep x (y ∷ ys) h (inl e) =
      let holds : p y ≡ true = ap p (sym e) ∙ h in
      subst (λ b. In x (if b then y ∷ keep p ys else keep p ys)) (sym holds) (inl e)
  In-keep x (y ∷ ys) h (inr i) = elim (Bool-cases (p y)) [
    | inl e ↦
        subst (λ b. In x (if b then y ∷ keep p ys else keep p ys)) (sym e) (inr (In-keep x ys h i))
    | inr e ↦ subst (λ b. In x (if b then y ∷ keep p ys else keep p ys)) (sym e) (In-keep x ys h i)
  ]

  -- What is kept was there, and satisfies the test.
  pub keep-In : (x : A) (xs : List A) → In x (keep p xs) → In x xs × (p x ≡ true)
  unfolding keep
  keep-In x [] i = absurd i
  keep-In x (y ∷ ys) i =
      let ih : In x (keep p ys) → In x (y ∷ ys) × (p x ≡ true) =
        λ j. (inr (keep-In x ys j).0, (keep-In x ys j).1) in
      elim (Bool-cases (p y)) [
        | inl e ↦ elim (subst (λ b. In x (if b then y ∷ keep p ys else keep p ys)) e i) [
          | inl same ↦ (inl same, ap p same ∙ e)
          | inr j ↦ ih j
        ]
        | inr e ↦ ih (subst (λ b. In x (if b then y ∷ keep p ys else keep p ys)) e i)
      ]

  In-one : (x y : A) (xs : List A) → length xs ≡ 1 → In x xs → In y xs → x ≡ y
  In-one x y [] n i j = absurd i
  In-one x y (z ∷ []) n (inl e) (inl f) = e ∙ sym f
  In-one x y (z ∷ []) n (inl e) (inr j) = absurd j
  In-one x y (z ∷ []) n (inr i) j = absurd i
  In-one x y (z ∷ w ∷ xs) n i j = absurd (ground arith)

  -- When one element is kept, all the elements that satisfy the test are the same.
  pub keep-one :
      (x y : A) (xs : List A)
      → length (keep p xs) ≡ 1
      → In x xs
      → p x ≡ true
      → In y xs
      → p y ≡ true
      → x ≡ y
  keep-one x y xs n i h j k = In-one x y (keep p xs) n (In-keep x xs h i) (In-keep y xs k j)

In-map : {A B : Type 0} (f : A → B) (x : A) (xs : List A) → In x xs → In (f x) (map f xs)
In-map f x [] i = absurd i
In-map f x (y ∷ ys) (inl e) = inl (ap f e)
In-map f x (y ∷ ys) (inr i) = inr (In-map f x ys i)

module _ (account : CollectSyncAccountKey) (batch_id at : ℤ) where
  module _ (row : OutboxRow) (other : is_to_accept account batch_id row ≡ false)
      (pending : text_eq row.status (text "accepted") ≡ false) where
    unchanged : change_batch (is_to_accept account batch_id) (accepted_row at) row ≡ row
    unchanged = ap (λ b. if b then accepted_row at row else row) other

    update-HasRow :
        (tables : Tables)
        → HasRow row tables
        → Makes
            (HasRow row)
            (update_outbox (is_to_accept account batch_id) (accepted_row at) tables)
    unfolding update_outbox
    update-HasRow tables i = if-Makes (HasRow row) _ _ _ (
        subst
          (λ r.
            In r
              (map (change_batch (is_to_accept account batch_id) (accepted_row at)) tables.outbox))
          unchanged (In-map _ row tables.outbox i))

    left : is_left account batch_id row ≡ true
    unfolding is_left
    left = ground (arith, pending)

    delete-HasRow :
        (tables : Tables)
        → HasRow row tables
        → Makes (HasRow row) (delete_batches (is_left account batch_id) tables)
    unfolding delete_batches
    delete-HasRow tables i = In-keep (is_left account batch_id) row tables.outbox left i

    -- A row that is not to be accepted stays.
    pub mark_accepted-Preserves : Preserves (HasRow row) (mark_batch_accepted account batch_id at)
    unfolding mark_batch_accepted load_batch
    mark_accepted-Preserves =
        bind-Preserves (HasRow row) _ _ (select-Preserves (HasRow row) _) (λ n.
          bind-Preserves (HasRow row) _ _ (execute-Preserves (HasRow row) _ update-HasRow) (λ _.
            bind-Preserves (HasRow row) _ _ (lift-Preserves (HasRow row) _) (λ _.
              bind-Preserves (HasRow row) _ _ (select-Preserves (HasRow row) _) (λ n'.
                bind-Preserves (HasRow row) _ _
                  (execute-Preserves (HasRow row) _ (update_state-HasRow row account _))
                  (λ _. bind-Preserves (HasRow row) _ _ (select-Preserves (HasRow row) _) (λ found.
                    bind-Preserves (HasRow row) _ _ (or_throw-Preserves (HasRow row) found _)
                      (λ batch.
                        bind-Preserves (HasRow row) _ _
                          (execute-Preserves (HasRow row) _ delete-HasRow)
                          (λ _. return-Preserves (HasRow row) batch))))))))

-- What holds whatever a transaction does, and a condition that the rest of it is under.
always :
    {A : Type 0} (P : Type 0) (r : Result (A × Tables) CollectSyncStoreError) → P → After (λ _. P) r
unfolding After
always P (ok (a, tables)) p = p
always P (err e) p = tt

later :
    {A B : Type 0} (P : Type 0) (r : Result (A × Tables) CollectSyncStoreError)
    (f : A → Transaction B)
    → ((a : A) (tables : Tables) → After (λ _. P) (f a tables))
    → After (λ _. P) (continue r f)
unfolding After
later P (ok (a, tables)) f h = h a tables
later P (err e) f h = tt

one_updated-After :
    {B : Type 0} (n : ℕ) (f : Unit → Transaction B) (tables : Tables)
    → After (λ _. n ≡ 1) ((one_updated n >>= f) tables)
unfolding After ◌>>=◌ lift
one_updated-After n f tables = elim (Bool-cases (n == 1)) [
  | inl e ↦
      subst
        (λ b. After (λ _. n ≡ 1) (continue (lift (if b then ok tt else err not_found) tables) f))
        (sym e) (always (n ≡ 1) (f tt tables) ((==_iff n 1).0 e))
  | inr e ↦
      subst
        (λ b. After (λ _. n ≡ 1) (continue (lift (if b then ok tt else err not_found) tables) f))
        (sym e) tt
]

-- A batch is accepted only when exactly one row has its id, its account and the status pending.
pub mark_accepted-one :
    (account : CollectSyncAccountKey) (batch_id at : ℤ) (tables : Tables)
    → After
        (λ _. length (keep (is_to_accept account batch_id) tables.outbox) ≡ 1)
        (mark_batch_accepted account batch_id at tables)
unfolding mark_batch_accepted ◌>>=◌ select lift
mark_accepted-one account batch_id at tables =
    later _ _ _ (λ _ tables'. one_updated-After _ _ tables')
