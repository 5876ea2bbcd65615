-- ===== src/Reconciliation/Daily/Loop.antt =====
-- What the loop over the candidates makes of the usage under each key.
use mathlib.Core.Path.{subst}
use burnly.Prelude.{
  ◌≡◌, refl, Bool, true, false, Option, none, some, List, [], ◌∷◌, map, ok, arith, if◌then◌else◌,
  ap, sym, ◌∙◌,
}
use burnly.Prelude.Text.{Text, text_eq, text_eq_iff}
use burnly.Prelude.Int.{ℤ, same_ℤ}
use burnly.Domain.Identity.{NaiveDate}
use burnly.Collection.Candidate.{DailyUsageCandidate}
use burnly.Refresh.Runs.{SourceId, ImportRunId}
use burnly.Reconciliation.Tables.{Tables, DailyUsage, FreshIds}
use burnly.Reconciliation.Tables.Lookup.{usage_at, upserted, continue-eq-ok}
use burnly.Reconciliation.Daily.{usage_of, reconcile_candidate, reconcile_candidates}
use burnly.Reconciliation.Daily.Rounds.{reconcile_candidate_lem, usage_of-stamps}

-- The last of the candidates with a source key.
abbrev pub last_with : Text → List DailyUsageCandidate → Option DailyUsageCandidate
last_with key [] = none
last_with key (candidate ∷ candidates) = elim (last_with key candidates) [
  | some later ↦ some later
  | none ↦ if text_eq candidate.source_key key then some candidate else none
]

module _ (fresh : FreshIds) (display : NaiveDate → Text) where
  -- What stands under a key after the candidates, the last one with the key being `last`.
  abbrev pub IsObserved :
      ImportRunId → ℤ → (last : Option DailyUsageCandidate) → (old new : Option DailyUsage) → Type 0
  IsObserved i now none old new = new ≡ old
  IsObserved i now (some last) old new =
      (u : DailyUsage) × (usage_of fresh display i now last ≡ ok u) × (new ≡ some (upserted u old))

  upserted-upserted :
      (u u' : DailyUsage) (old : Option DailyUsage)
      → u.first_seen_at_ms ≡ u'.first_seen_at_ms
      → upserted u' (some (upserted u old)) ≡ upserted u' old
  upserted-upserted u u' none e = λ j. record u' { first_seen_at_ms = e j }
  upserted-upserted u u' (some old) e = refl

  IsObserved-earlier :
      (i : ImportRunId) (now : ℤ) (later : Option DailyUsageCandidate)
      (candidate : DailyUsageCandidate) (u : DailyUsage) (b : Bool)
      (old mid new : Option DailyUsage)
      → usage_of fresh display i now candidate ≡ ok u
      → (b ≡ true → mid ≡ some (upserted u old))
      → (b ≡ false → mid ≡ old)
      → IsObserved i now later mid new
      → IsObserved i now
          (elim later [ some d ↦ some d | none ↦ if b then some candidate else none ])
          old
          new
  IsObserved-earlier i now none candidate u true old mid new made here else' h =
      (u, made, h ∙ here refl)
  IsObserved-earlier i now none candidate u false old mid new made here else' h = h ∙ else' refl
  IsObserved-earlier i now (some d) candidate u true old mid new made here else' h =
      let (u', made', e) = h in
      (
        u',
        made',
        e
            ∙ ap (λ (o : Option DailyUsage). some (upserted u' o)) (here refl)
            ∙ ap some (
                upserted-upserted u u' old (
                  (usage_of-stamps fresh display i now candidate u made).0
                  ∙ sym (usage_of-stamps fresh display i now d u' made').0)),
      )
  IsObserved-earlier i now (some d) candidate u false old mid new made here else' h =
      let (u', made', e) = h in
      (u', made', e ∙ ap (λ (o : Option DailyUsage). some (upserted u' o)) (else' refl))

  pub same_ℤ_refl : (n : ℤ) → same_ℤ n n ≡ true
  same_ℤ_refl n = ground arith

  key_eq : (a b : Text) → text_eq a b ≡ true → a ≡ b
  key_eq a b h = ground (arith, text_eq_iff a b)

  self_at :
      (s : SourceId) (u : DailyUsage) (tables tables' : Tables) (key k : Text)
      → key ≡ k
      → usage_at s.value key tables'.daily ≡ some (upserted u (usage_at s.value key tables.daily))
      → usage_at s.value k tables'.daily ≡ some (upserted u (usage_at s.value k tables.daily))
  self_at s u tables tables' key k e h = rw e at h

  same_after :
      (i : ImportRunId) (now : ℤ) (cs : List DailyUsageCandidate) (s : SourceId) (k : Text)
      (tables1 tables2 tables' : Tables)
      → tables' ≡ tables2
      → IsObserved i now
          (last_with k cs)
          (usage_at s.value k tables1.daily)
          (usage_at s.value k tables2.daily)
      → IsObserved i now
          (last_with k cs)
          (usage_at s.value k tables1.daily)
          (usage_at s.value k tables'.daily)
  same_after i now cs s k tables1 tables2 tables' e h =
      subst
        (λ t.
          IsObserved i now (last_with k cs) (usage_at s.value k tables1.daily)
            (usage_at s.value k (Tables.daily t)))
        (sym e) h

  -- The loop returns the keys, and what stands under each key of its source is observed.
  pub reconcile_candidates_lem :
      (s : SourceId) (i : ImportRunId) (now : ℤ) (candidates : List DailyUsageCandidate)
      (tables tables' : Tables) (keys : List Text)
      → reconcile_candidates fresh display s i now candidates tables ≡ ok (keys, tables')
      → (keys ≡ map (λ candidate. candidate.source_key) candidates)
        × ((k : Text)
            → IsObserved i now
                (last_with k candidates)
                (usage_at s.value k tables.daily)
                (usage_at s.value k tables'.daily))
        × ((s' : ℤ) (k : Text)
            → same_ℤ s.value s' ≡ false
            → usage_at s' k tables'.daily ≡ usage_at s' k tables.daily)
  unfolding reconcile_candidates
  reconcile_candidates_lem s i now [] tables tables' keys h =
      let same : tables' ≡ tables = ground arith in
      (
        ground arith,
        λ k. ap (λ (t : Tables). usage_at s.value k t.daily) same,
        λ s' k other. ap (λ (t : Tables). usage_at s' k t.daily) same,
      )
  reconcile_candidates_lem s i now (c ∷ cs) tables tables' keys h =
      let (_, tables1, e, h1) =
        continue-eq-ok (reconcile_candidate fresh display s i now c tables) _ h in
      let (rest, tables2, e2, h2) =
        continue-eq-ok (reconcile_candidates fresh display s i now cs tables1) _ h1 in
      let (u, made, self, other) =
        reconcile_candidate_lem fresh display s i now c tables tables1 e in
      let (listed, observed, sources) =
        reconcile_candidates_lem s i now cs tables1 tables2 rest e2 in
      let same : tables' ≡ tables2 = ground arith in
      let ends : keys ≡ c.source_key ∷ rest = ground arith in
      (
        ends ∙ ap (◌∷◌ c.source_key) listed,
        λ k.
            IsObserved-earlier i now (last_with k cs) c u (text_eq c.source_key k)
              (usage_at s.value k tables.daily) (usage_at s.value k tables1.daily)
              (usage_at s.value k tables'.daily) made
              (λ here. self_at s u tables tables1 c.source_key k (key_eq c.source_key k here) self)
              (λ else'. other s.value k (rw same_ℤ_refl else'))
              (same_after i now cs s k tables1 tables2 tables' same (observed k)),
        λ s' k else'.
            ap (λ (t : Tables). usage_at s' k t.daily) same
            ∙ sources s' k else'
            ∙ other s' k (rw else' refl),
      )
