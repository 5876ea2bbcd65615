-- ===== src/CollectSync/Scope/Merge.antt =====
-- The source-days of merged upload scopes.
use burnly.Prelude.{◌≤◌, ◌≡◌, ◌⊎◌, true, false, Option, none, some, is_empty, min, max, arith}
use burnly.Prelude.Text.{Text}
use burnly.Domain.Identity.{NaiveDate}
use burnly.CollectSync.TextSet.{TextSet, contains, contains-extend}
use burnly.CollectSync.Scope.{UploadScope, full, incremental, merge_upload_scopes}

-- The source-days that a scope uploads.
abbrev pub Uploads : UploadScope → Text → NaiveDate → Type 0
Uploads full key day = Unit
Uploads (incremental keys s e) key day = (contains key keys ≡ true) × (s ≤ day) × (day ≤ e)

abbrev pub PendingUploads : Option UploadScope → Text → NaiveDate → Type 0
PendingUploads none key day = ⊥
PendingUploads (some scope) key day = Uploads scope key day

-- What every scope built by the code satisfies.
abbrev pub IsValid : UploadScope → Type 0
IsValid full = Unit
IsValid (incremental keys s e) = (is_empty keys ≡ false) × (s ≤ e)

abbrev pub IsValidPending : Option UploadScope → Type 0
IsValidPending none = Unit
IsValidPending (some scope) = IsValid scope

-- Merging keeps every source-day that was pending or is asked for now.
pub merge-covers :
    (pending : Option UploadScope) (incoming : UploadScope) (key : Text) (day : NaiveDate)
    → PendingUploads pending key day ⊎ Uploads incoming key day
    → Uploads (merge_upload_scopes pending incoming) key day
unfolding merge_upload_scopes
merge-covers pending full key day h = tt
merge-covers none (incremental keys' s' e') key day h = ground arith
merge-covers (some full) (incremental keys' s' e') key day h = tt
merge-covers (some (incremental keys s e)) (incremental keys' s' e') key day h =
    ground (arith, contains-extend key keys keys')

-- Apart from the dates in between, merging adds nothing: a source-day of the merged scope belongs
-- to a source of one of the two, and lies within the joined date range.
pub merge-adds_nothing :
    (keys keys' : TextSet) (s e s' e' : NaiveDate) (key : Text) (day : NaiveDate)
    → Uploads (merge_upload_scopes (some (incremental keys s e)) (incremental keys' s' e')) key day
    → ((contains key keys ≡ true) ⊎ (contains key keys' ≡ true))
      × (min s s' ≤ day)
      × (day ≤ max e e')
unfolding merge_upload_scopes
merge-adds_nothing keys keys' s e s' e' key day h = ground (arith, contains-extend key keys keys')
