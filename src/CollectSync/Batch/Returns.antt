-- ===== src/CollectSync/Batch/Returns.antt =====
-- When `build_prepared_batches` returns batches, and when an error.
use burnly.Prelude.{
  ℕ, suc, ◌+◌, ◌≤◌, ◌≡◌, refl, ap, ◌∙◌, ◌⊎◌, inl, inr, true, false, Option, some, List, [], ◌∷◌,
  All, ok, err, arith, Bool-cases, length, any, ltb, min, i64_max, length-append,
}
use burnly.Prelude.Text.{Text}
use burnly.Prelude.Sort.{length-sort_by}
use burnly.Prelude.Int.{ℤ, pos}
use burnly.Refresh.Outcome.{clamp_count}
use burnly.CollectSync.Wire.{DailyUsageFactDto, DailyUsagePushRequestDto}
use burnly.CollectSync.Batch.{
  BatchBuildLimits, BatchRequestMeta, PreparedBatch, too_many_models, checked_add_i64, request_of,
  prepare, prepare_from, build_prepared_batches, sort_facts, fact_le,
}
use burnly.CollectSync.Batch.Chunks.{chunks-pieces, concat, IsPiece}
use burnly.CollectSync.Batch.Contents.{prepared}

length-sort_facts : (facts : List DailyUsageFactDto) → length (sort_facts facts) ≡ length facts
unfolding sort_facts
length-sort_facts facts = length-sort_by fact_le facts

length-pieces-le :
    (n : ℕ) (pieces : List (List DailyUsageFactDto))
    → All (IsPiece n) pieces
    → length pieces ≤ length (concat pieces)
length-pieces-le n [] h = omega arith
length-pieces-le n (piece ∷ pieces) h =
    omega (arith, h.0.0, length-append piece (concat pieces), length-pieces-le n pieces h.1)

module _ (to_json : DailyUsagePushRequestDto → Option Text) (sha256_hex : Text → Text)
    (new_uuid : ℕ → Text) (meta : BatchRequestMeta) (first_client_revision : ℤ) where
  -- The revision of a piece, when it is in range.
  revision-ok :
      (first index : ℕ)
      → first + index ≤ i64_max
      → checked_add_i64 (pos first) (min index i64_max) ≡ some (pos (first + index))
  revision-ok first index h = ground arith

  prepare-ok :
      (batch_count index first : ℕ) (chunk : List DailyUsageFactDto) (body : Text)
      → first_client_revision ≡ pos first
      → first + index ≤ i64_max
      → to_json (request_of meta (pos (first + index)) chunk) ≡ some body
      → prepare to_json sha256_hex new_uuid meta first_client_revision batch_count index chunk
        ≡ ok (
            prepared to_json sha256_hex new_uuid meta first_client_revision batch_count index chunk
              (pos (first + index))
              body)
  unfolding prepare
  prepare-ok batch_count index first chunk body e h made =
      rw (e, revision-ok first index h, made) refl

  -- Enough for a piece: its revision exists and its request has a JSON form.
  prepare_from-ok :
      (batch_count index first : ℕ) (pieces : List (List DailyUsageFactDto))
      → ((request : DailyUsagePushRequestDto) → (body : Text) × (to_json request ≡ some body))
      → first_client_revision ≡ pos first
      → first + index + length pieces ≤ i64_max
      → (batches : List PreparedBatch) × (prepare_from to_json sha256_hex new_uuid meta
            first_client_revision batch_count index pieces
          ≡ ok batches)
  unfolding prepare_from
  prepare_from-ok batch_count index first [] json e h = ([], refl)
  prepare_from-ok batch_count index first (chunk ∷ pieces) json e h =
      let (body, made) = json (request_of meta (pos (first + index)) chunk) in
      let (batches, rest) =
        prepare_from-ok batch_count (suc index) first pieces json e (omega arith) in
      (
        prepared to_json sha256_hex new_uuid meta first_client_revision batch_count index chunk
              (pos (first + index)) body
            ∷ batches,
        rw (prepare-ok batch_count index first chunk body e (omega arith) made, rest) refl,
      )

  -- With a positive limit on the facts, requests that serialise, and revisions in range,
  -- `build_prepared_batches` returns, and it refuses exactly the facts of which one has too many models.
  pub build-outcome :
      (facts : List DailyUsageFactDto) (limits : BatchBuildLimits) (first : ℕ)
      → 1 ≤ limits.max_facts_per_batch
      → ((request : DailyUsagePushRequestDto) → (body : Text) × (to_json request ≡ some body))
      → first_client_revision ≡ pos first
      → first + length facts ≤ i64_max
      → ((any (λ fact. ltb limits.max_models_per_fact (length fact.models)) facts ≡ true)
          × (build_prepared_batches to_json sha256_hex new_uuid meta first_client_revision facts
                limits
              ≡ some (err (too_many_models limits.max_models_per_fact))))
        ⊎ ((any (λ fact. ltb limits.max_models_per_fact (length fact.models)) facts ≡ false)
            × ((batches : List PreparedBatch) × (build_prepared_batches to_json sha256_hex new_uuid
                    meta first_client_revision facts limits
                  ≡ some (ok batches))))
  unfolding build_prepared_batches
  build-outcome [] limits first h json e range = inr (refl, ([], refl))
  build-outcome (x ∷ xs) limits first h json e range =
      elim (Bool-cases
        (any (λ fact. ltb limits.max_models_per_fact (length fact.models)) (x ∷ xs))) [
          | inl oversized ↦ inl (oversized, ground arith)
          | inr fits ↦
              let (pieces, cut, joined, sized) =
                chunks-pieces limits.max_facts_per_batch (sort_facts (x ∷ xs)) h in
              let few : length pieces ≤ length (concat pieces) =
                length-pieces-le limits.max_facts_per_batch pieces sized in
              let same : length (concat pieces) ≡ length (x ∷ xs) =
                ap length joined ∙ length-sort_facts (x ∷ xs) in
              let (batches, made) =
                prepare_from-ok (clamp_count (length pieces)) 0 first pieces json e (omega arith) in
              inr (fits, (batches, ground arith))
        ]
