-- ===== src/Tests/Content.antt =====
-- Tests of the content: duplicates and their groups, the cache, the actions of users, and the
-- recommendations.
use Prim.Native.String.{String}
use mirth_spool.Base.{
  ℕ, leb, ◌+◌, ◌≤◌, ◌<◌, ◌⊎◌, take, ◌≡◌, refl, ◌↔◌, min, true, false, none, some, List, [], ◌∷◌,
  arith, length,
}
use mirth_spool.Base.Int.{pos}
use mirth_spool.Base.Table.{count_where}
use mirth_spool.Db.{ContentStatus, ContentRating, DuplicateReason}
use mirth_spool.Base.Double.{bits}
use mirth_spool.Deduplication.Hash.{hash_value, hamming_distance}
use mirth_spool.Deduplication.Hash.Distance.{hamming_distance_metric}
use mirth_spool.Ingestion.Rows.{ContentRow, Db}
use mirth_spool.Ingestion.Due.{list_due_sources}
use mirth_spool.Ingestion.Due.Listed.{due_order, list_due_sources-due_order}
use mirth_spool.Duplicates.Matches.{Match, MediaOrders, find_duplicate_matches}
use mirth_spool.Duplicates.Matches.Found.{IsFound, find_duplicate_matches-IsFound}
use mirth_spool.Duplicates.Groups.{
  MergeInput, merge_duplicate_items, is_pair, is_member, is_known, sorted_groups,
}
use mirth_spool.Duplicates.Groups.Led.{IsGrouped}
use mirth_spool.Duplicates.Groups.Merge.{LeavesGroups, merge_duplicate_items-LeavesGroups}
use mirth_spool.Duplicates.Groups.Total.{merge_duplicate_items_total}
use mirth_spool.Base.Sort.{sort}
use mirth_spool.Storage.Policy.{CachePolicyName, CacheCandidate, select_evictions}
use mirth_spool.Storage.Policy.Reference.{eviction_order}
use mirth_spool.Storage.Policy.Evicted.{IsFirst, total_size, select_evictions-IsFirst}
use mirth_spool.UserActions.{ActionKind, ActionKey, Actions, set_user_action, view_once}
use mirth_spool.UserActions.Kept.{IsKept}
use mirth_spool.UserActions.Views.{sees, here, next, ActionSteps-IsKept, set_user_action_again}
use mirth_spool.Recommendations.{RecommendationCandidate, diversify_recommendations}
use mirth_spool.Recommendations.Diverse.{Diverse, diversify_recommendations_total}
use mirth_spool.Examples.{test_platform, test_doubles, test_db, test_source}

list_due_sources-due_order_example :
    ((1 ≤ 10)
      × (10 ≤ 500)
      × (list_due_sources (test_source ∷ []) 5 10
          ≡ some (take 10 (due_order 5 (test_source ∷ [])))))
    ⊎ (((10 < 1) ⊎ (500 < 10)) × (list_due_sources (test_source ∷ []) 5 10 ≡ none))
list_due_sources-due_order_example = list_due_sources-due_order (test_source ∷ []) 5 10

abbrev hash_1 : String
hash_1 = "0000000000000003"

abbrev hash_2 : String
hash_2 = "000000000000000f"

abbrev hash_3 : String
hash_3 = "8000000000000000"

hamming_distance_metric_example :
    (d e f : ℕ) × (hamming_distance hash_1 hash_2 ≡ some d)
    × (hamming_distance hash_1 hash_3 ≡ some e)
    × (hamming_distance hash_3 hash_2 ≡ some f)
    × (hamming_distance hash_2 hash_1 ≡ some d)
    × (d ≤ 64)
    × ((d ≡ 0) ↔ ◌≡◌ {A = ℕ} 3 15)
    × (d ≤ e + f)
unfolding hash_value
hamming_distance_metric_example =
    hamming_distance_metric hash_1 hash_2 hash_3 3 15 9223372036854775808 refl refl refl

abbrev item_1 : ContentRow
item_1 = record {
  id = 1;
  title = some "A comic";
  normalized_title = none;
  summary = none;
  author_name = none;
  content_rating = ContentRating.safe;
  content_warning = none;
  status = ContentStatus.active;
  published_at = 5000;
  last_seen_at = 5000;
  primary_source_post_id = none;
  canonical_url = some "/comic";
  canonical_url_hash = some "abc";
  ranking_score = bits 0;
  random_key = 1;
  search_text = none;
  duplicate_analyzed_at = none;
  duplicate_group_id = none;
  duplicate_primary = true;
}

abbrev item_2 : ContentRow
item_2 = record item_1 { id = 2; title = none }

-- Two items with one canonical URL.
abbrev pair_db : Db
pair_db = record test_db { contents = item_1 ∷ item_2 ∷ [] }

-- The media by their ordinals.
abbrev test_orders : MediaOrders
test_orders = record {
  by_identifier = λ a b. leb a.asset.ordinal b.asset.ordinal;
  newest_first = λ a b. leb a.asset.ordinal b.asset.ordinal;
}

find_duplicate_matches-IsFound_example :
    (ms : List Match) × (find_duplicate_matches test_doubles test_orders pair_db 1 10 ≡ some ms)
    × IsFound pair_db 1 10 ms
find_duplicate_matches-IsFound_example =
    find_duplicate_matches-IsFound test_doubles test_orders pair_db 1 10 (omega arith) (omega arith)

pair_in_order : IsGrouped pair_db
pair_in_order = record {
  ids = ((refl, tt), (tt, tt));
  led = tt;
  homes = ((λ u. refl, λ g e. cc), ((λ u. refl, λ g e. cc), tt));
  fresh = tt;
}

abbrev pair_merge : MergeInput
pair_merge = record {
  actor_user_id = some 9;
  distance = none;
  left = 2;
  right = 1;
  reason = DuplicateReason.canonical_url;
}

merge_duplicate_items-LeavesGroups_example :
    LeavesGroups pair_merge (merge_duplicate_items test_platform pair_merge pair_db)
merge_duplicate_items-LeavesGroups_example =
    merge_duplicate_items-LeavesGroups test_platform pair_merge pair_db pair_in_order

merge_duplicate_items_total_example :
    (r : (ℕ × ℕ) × Db) × (merge_duplicate_items test_platform pair_merge pair_db ≡ some r)
unfolding count_where is_pair is_member sorted_groups sort is_known
merge_duplicate_items_total_example =
    merge_duplicate_items_total test_platform pair_merge pair_db pair_in_order.ids
      (λ e. ground (arith, e)) refl refl (omega arith) refl

abbrev object_1 : CacheCandidate
object_1 = record {
  cache_expires_at = some 10;
  cached_at = some 1;
  favorite = false;
  id = 1;
  last_accessed_at = none;
  size = 30;
}

abbrev object_2 : CacheCandidate
object_2 = record object_1 { favorite = true; id = 2 }

abbrev objects : List CacheCandidate
objects = object_2 ∷ object_1 ∷ []

select_evictions-IsFirst_example :
    ((20 ≤ total_size (eviction_order 20 CachePolicyName.favorites_only objects))
      × IsFirst 20
          (eviction_order 20 CachePolicyName.favorites_only objects)
          (select_evictions objects 20 20 CachePolicyName.favorites_only))
    ⊎ ((total_size (eviction_order 20 CachePolicyName.favorites_only objects) < 20)
        × (select_evictions objects 20 20 CachePolicyName.favorites_only ≡ []))
select_evictions-IsFirst_example =
    select_evictions-IsFirst objects 20 20 CachePolicyName.favorites_only (omega arith)

abbrev no_actions : Actions
no_actions = record { rows = []; next_id = 1 }

abbrev view_key : ActionKey
view_key = record { content_item_id = 7; kind = ActionKind.view; user_id = 3 }

no_actions-IsKept : IsKept no_actions
unfolding count_where
no_actions-IsKept = record { keys = λ q. omega arith; ids = tt; fresh = tt; spaced = tt }

ActionSteps-IsKept_example :
    IsKept (view_once view_key 1000000 (view_once view_key 50 no_actions).1).1
ActionSteps-IsKept_example = ActionSteps-IsKept no_actions-IsKept (
    next (next here (sees no_actions view_key 50))
      (sees (view_once view_key 50 no_actions).1 view_key 1000000))

set_user_action_again_example :
    set_user_action view_key 60 (set_user_action view_key 50 no_actions).1
    ≡ set_user_action view_key 50 no_actions
set_user_action_again_example = set_user_action_again view_key 50 60 no_actions

abbrev candidate : ℕ → RecommendationCandidate
candidate n = record {
  id = n;
  media_kind = none;
  published_at = n;
  source_id = some 1;
  source_priority = pos 0;
  tag_slugs = [];
}

abbrev candidates : List RecommendationCandidate
candidates = candidate 1 ∷ candidate 2 ∷ candidate 3 ∷ []

diversify_recommendations_total_example :
    (out : List RecommendationCandidate) × (diversify_recommendations candidates 2 ≡ some out)
    × Diverse [] candidates out
    × (length out ≡ min 2 3)
diversify_recommendations_total_example = diversify_recommendations_total candidates 2
