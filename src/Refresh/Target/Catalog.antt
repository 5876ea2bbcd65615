-- ===== src/Refresh/Target/Catalog.antt =====
-- The catalog of targets, counted.
use burnly.Prelude.{ℕ, ◌+◌, ◌≡◌, refl, List, [], ◌∷◌, ◌&&◌, if◌then◌else◌}
use burnly.Domain.Source.{SourceKey, same_source}
use burnly.Collection.Request.{CollectionProjection, same_projection}
use burnly.Refresh.Target.{RefreshTarget, refresh_targets}

-- How often a pair occurs among some targets.
unfoldable pub occurrences : SourceKey → CollectionProjection → List RefreshTarget → ℕ
unfolding same_source
occurrences source projection [] = 0
occurrences source projection (target ∷ targets) =
    let rest = occurrences source projection targets in
    if same_source target.source source && same_projection target.projection projection
    then rest + 1
    else rest

-- Every source occurs exactly once with every projection among the targets of a refresh.
pub refresh_targets-once :
    (source : SourceKey) (projection : CollectionProjection)
    → occurrences source projection refresh_targets ≡ 1
unfolding occurrences refresh_targets
refresh_targets-once SourceKey.claude_code CollectionProjection.daily = refl
refresh_targets-once SourceKey.claude_code CollectionProjection.session = refl
refresh_targets-once SourceKey.codex CollectionProjection.daily = refl
refresh_targets-once SourceKey.codex CollectionProjection.session = refl
refresh_targets-once SourceKey.open_code CollectionProjection.daily = refl
refresh_targets-once SourceKey.open_code CollectionProjection.session = refl
refresh_targets-once SourceKey.pi CollectionProjection.daily = refl
refresh_targets-once SourceKey.pi CollectionProjection.session = refl
refresh_targets-once SourceKey.cline CollectionProjection.daily = refl
refresh_targets-once SourceKey.cline CollectionProjection.session = refl
refresh_targets-once SourceKey.z_code CollectionProjection.daily = refl
refresh_targets-once SourceKey.z_code CollectionProjection.session = refl
refresh_targets-once SourceKey.antigravity CollectionProjection.daily = refl
refresh_targets-once SourceKey.antigravity CollectionProjection.session = refl
refresh_targets-once SourceKey.grok_build CollectionProjection.daily = refl
refresh_targets-once SourceKey.grok_build CollectionProjection.session = refl
refresh_targets-once SourceKey.command_code CollectionProjection.daily = refl
refresh_targets-once SourceKey.command_code CollectionProjection.session = refl
refresh_targets-once SourceKey.deep_seek_harness CollectionProjection.daily = refl
refresh_targets-once SourceKey.deep_seek_harness CollectionProjection.session = refl
refresh_targets-once SourceKey.zed CollectionProjection.daily = refl
refresh_targets-once SourceKey.zed CollectionProjection.session = refl
