-- ===== src/MediaCache/Schedule.antt =====
-- `scheduleMediaCache` of apps/worker/src/media-cache.ts: media that wait are put in the queue.
use mirth_spool.Base.{ℕ, ◌+◌, Bool, true, false, not, List, [], ◌∷◌, ◌==◌, if◌then◌else◌}
use mirth_spool.Storage.Policy.{should_cache_media, is_none_cached}
use mirth_spool.MediaCache.Rows.{
  Asset, Cache, list_cache_scheduling_candidates, mark_media_queued, reset_queued_media,
}

-- How many were queued, and whether the queue threw; `enqueue` says which identifiers it takes.
pub record Scheduled : Type 0 where
  pub queued : ℕ
  pub thrown : Bool
  pub cache : Cache

-- one candidate of the loop, with the rest of the loop from the tables and the count behind it
schedule_one : (ℕ → Bool) → Asset → (ℕ → Cache → Scheduled) → ℕ → Cache → Scheduled
schedule_one enqueue a rest queued c =
    if not (
      should_cache_media (c.is_favorite a.content_item_id) a.kind c.configuration.allowed_kinds
        c.configuration.policy)
    then rest queued c
    else (let (count, d) = mark_media_queued a.id c in
        if count == 0
        then rest queued d
        else if enqueue a.id
        then rest (queued + 1) d
        else record { queued = queued; thrown = true; cache = reset_queued_media a.id d })

schedule_all : (ℕ → Bool) → List Asset → ℕ → Cache → Scheduled
unfolding schedule_one
schedule_all enqueue [] queued c = record { queued = queued; thrown = false; cache = c }
schedule_all enqueue (a ∷ rest) queued c =
    schedule_one enqueue a (λ n d. schedule_all enqueue rest n d) queued c

unfoldable pub schedule_media_cache : (ℕ → Bool) → ℕ → Cache → Scheduled
unfolding schedule_all
schedule_media_cache enqueue limit c =
    if is_none_cached c.configuration.policy
    then record { queued = 0; thrown = false; cache = c }
    else schedule_all enqueue
        (list_cache_scheduling_candidates c c.configuration.allowed_kinds limit) 0 c
