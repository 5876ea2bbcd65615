-- ===== src/CollectSync/Batch/Contents.antt =====
-- What the prepared batches of `build_prepared_batches` contain.
use mathlib.Core.Path.{subst}
use mathlib.Core.List.{Perm}
use mathlib.Core.List.Perm
use burnly.Prelude.{
  ℕ, suc, ◌≤◌, ◌≡◌, refl, All-of_In, inl, inr, Option, some, List, [], ◌∷◌, All, ok, arith,
  Bool-cases, Result-cases, Option-cases, length, any, ltb, min, i64_max,
}
use burnly.Prelude.Text.{Text}
use burnly.Prelude.Int.{ℤ}
use burnly.Refresh.Outcome.{clamp_count}
use burnly.CollectSync.Wire.{DailyUsageFactDto, DailyUsagePushRequestDto, to_wire}
use burnly.CollectSync.Batch.{
  BatchBuildLimits, BatchRequestMeta, PreparedBatch, checked_add_i64, request_of, prepare,
  prepare_from, build_prepared_batches, sort_facts, min_date, max_date,
}
use burnly.CollectSync.Batch.Chunks.{chunks, chunks-pieces, concat, IsPiece}
use burnly.CollectSync.Batch.Sorting.{
  IsSorted, Within, sort_facts-IsSorted, sort_facts-perm, window-Within,
}

module _ (to_json : DailyUsagePushRequestDto → Option Text) (sha256_hex : Text → Text)
    (new_uuid : ℕ → Text) (meta : BatchRequestMeta) (first_client_revision : ℤ) where
  -- A batch that carries a chunk as number `index` of `batch_count`.
  pub record Carries (batch_count index : ℕ) (chunk : List DailyUsageFactDto)
      (batch : PreparedBatch) : Type 0 where
    pub revision :
        checked_add_i64 first_client_revision (min index i64_max) ≡ some batch.client_revision
    pub body : to_json (request_of meta batch.client_revision chunk) ≡ some batch.request_body
    pub hash : batch.payload_hash ≡ sha256_hex batch.request_body
    pub index_count : (batch.batch_index ≡ clamp_count index) × (batch.batch_count ≡ batch_count)
    pub window : All (Within batch.window_start batch.window_end) chunk

  abbrev pub AllCarry : ℕ → ℕ → List (List DailyUsageFactDto) → List PreparedBatch → Type 0
  AllCarry batch_count index [] [] = Unit
  AllCarry batch_count index [] (_ ∷ _) = ⊥
  AllCarry batch_count index (_ ∷ _) [] = ⊥
  AllCarry batch_count index (chunk ∷ chunks) (batch ∷ batches) =
      Carries batch_count index chunk batch × AllCarry batch_count (suc index) chunks batches

  -- The batch that one round prepares.
  abbrev pub prepared : ℕ → ℕ → List DailyUsageFactDto → ℤ → Text → PreparedBatch
  prepared batch_count index chunk client_revision request_body = record {
    batch_index = clamp_count index;
    batch_count = batch_count;
    client_revision = client_revision;
    idempotency_key = new_uuid index;
    request_body = request_body;
    payload_hash = sha256_hex request_body;
    window_scope = to_wire meta.scope;
    window_start = min_date chunk;
    window_end = max_date chunk;
  }

  prepare-Carries :
      (batch_count index : ℕ) (chunk : List DailyUsageFactDto) (batch : PreparedBatch)
      → prepare to_json sha256_hex new_uuid meta first_client_revision batch_count index chunk
        ≡ ok batch
      → Carries batch_count index chunk batch
  unfolding prepare
  prepare-Carries batch_count index chunk batch h =
      elim (Option-cases (checked_add_i64 first_client_revision (min index i64_max))) [
        | inl none_rev ↦ absurd (ground arith)
        | inr (rev, some_rev) ↦ elim (Option-cases (to_json (request_of meta rev chunk))) [
          | inl none_body ↦ absurd (ground arith)
          | inr (body, some_body) ↦
              let same : prepared batch_count index chunk rev body ≡ batch = ground arith in
              subst (Carries batch_count index chunk) same (record {
                revision = some_rev;
                body = some_body;
                hash = refl;
                index_count = (refl, refl);
                window =
                    All-of_In (Within (min_date chunk) (max_date chunk)) chunk
                      (window-Within chunk);
              })
        ]
      ]

  prepare_from-AllCarry :
      (batch_count index : ℕ) (pieces : List (List DailyUsageFactDto))
      (batches : List PreparedBatch)
      → prepare_from to_json sha256_hex new_uuid meta first_client_revision batch_count index pieces
        ≡ ok batches
      → AllCarry batch_count index pieces batches
  unfolding prepare_from
  prepare_from-AllCarry batch_count index [] batches h =
      let empty : [] ≡ batches = ground arith in subst (AllCarry batch_count index []) empty tt
  prepare_from-AllCarry batch_count index (chunk ∷ pieces) batches h =
      elim (Result-cases
        (prepare to_json sha256_hex new_uuid meta first_client_revision batch_count index chunk)) [
          | inr (e, failed) ↦ absurd (ground arith)
          | inl (batch, made) ↦
              elim (Result-cases (
                prepare_from to_json sha256_hex new_uuid meta first_client_revision batch_count
                  (suc index) pieces)) [
                    | inr (e, failed) ↦ absurd (ground arith)
                    | inl (others, rest) ↦
                        let same : batch ∷ others ≡ batches = ground arith in
                        subst (AllCarry batch_count index (chunk ∷ pieces)) same (
                          prepare-Carries batch_count index chunk batch made,
                          prepare_from-AllCarry batch_count (suc index) pieces others rest,
                        )
                  ]
        ]

  -- When `build_prepared_batches` succeeds, its batches carry consecutive pieces of the facts, which it
  -- has sorted by date and identity key and of which it has lost and doubled none. Every piece holds at
  -- least one fact and at most as many as the limit allows, the revisions count up from the first one,
  -- every body is the JSON of its piece with its hash, and every date lies in its batch's window.
  pub build-AllCarry :
      (facts : List DailyUsageFactDto) (limits : BatchBuildLimits) (batches : List PreparedBatch)
      → 1 ≤ limits.max_facts_per_batch
      → build_prepared_batches to_json sha256_hex new_uuid meta first_client_revision facts limits
        ≡ some (ok batches)
      → (pieces : List (List DailyUsageFactDto)) × Perm (concat pieces) facts
        × IsSorted (concat pieces)
        × All (IsPiece limits.max_facts_per_batch) pieces
        × AllCarry (clamp_count (length pieces)) 0 pieces batches
  unfolding build_prepared_batches
  build-AllCarry [] limits batches h k = (
    [],
    Perm.refl [],
    tt,
    tt,
    let empty : [] ≡ batches = ground arith in subst (AllCarry (clamp_count 0) 0 []) empty tt,
  )
  build-AllCarry (x ∷ xs) limits batches h k =
      elim (Bool-cases
        (any (λ fact. ltb limits.max_models_per_fact (length fact.models)) (x ∷ xs))) [
          | inl oversized ↦ absurd (ground arith)
          | inr fits ↦
              let (pieces, cut, joined, sized) =
                chunks-pieces limits.max_facts_per_batch (sort_facts (x ∷ xs)) h in
              (
                pieces,
                rw joined (sort_facts-perm (x ∷ xs)),
                rw joined (sort_facts-IsSorted (x ∷ xs)),
                sized,
                prepare_from-AllCarry (clamp_count (length pieces)) 0 pieces batches (ground arith),
              )
        ]
