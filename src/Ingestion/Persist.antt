-- ===== src/Ingestion/Persist.antt =====
-- `persistIngestionPage` of packages/db/src/repositories/ingestion.ts: the transaction that stores
-- the posts of one page and the checkpoint. A throw rolls everything back: the result is `none`.
pub mod Counts
pub mod Rewritten
pub mod Keys
use Prim.Native.String.{String}
use mathlib.Core.Option
use text.Mathlib.Text.{◌==◌ as str_eq}
use mirth_spool.Base.{
  ℕ, suc, ◌+◌, Bool, true, false, ◌&&◌, Option, none, some, List, [], ◌∷◌, ◌++◌, map, leb, ltb,
  ◌==◌, if◌then◌else◌, find, length,
}
use mirth_spool.Base.Int.{ℤ}
use mirth_spool.Base.Table.{update_where, delete_where, count_where}
use mirth_spool.Db.{ContentStatus, CacheState}
use mirth_spool.Text.{Platform}
use mirth_spool.Ranking.{hot_ranking_coordinate, content_random_key}
use mirth_spool.Ingestion.Rows.{
  SourceRow, PostRow, ContentRow, MediaInput, MediaRow, CheckpointRow, Db, ContentInput,
  has_source_id,
}
use mirth_spool.Ingestion.Columns.{fits_columns}
use mirth_spool.Ingestion.Tags.{replace_provider_tags, refresh_content_search_text}

pub record PageInput : Type 0 where
  pub checkpoint : Option String
  pub items : List ContentInput
  pub source_id : ℕ

pub record Persisted : Type 0 where
  pub content_ids : List ℕ
  pub created : ℕ
  pub updated : ℕ

abbrev status_or_active : Option ContentStatus → ContentStatus
status_or_active none = ContentStatus.active
status_or_active (some s) = s

-- contentData, over a row whose identifier, random key and search text stay.
content_data : Platform → ContentInput → ℕ → ℤ → ContentRow → ContentRow
content_data platform item now source_priority row = record row {
  author_name = item.author_name;
  canonical_url = item.canonical_url;
  canonical_url_hash = item.canonical_url_hash;
  content_rating = item.content_rating;
  content_warning = item.content_warning;
  duplicate_analyzed_at = none;
  last_seen_at = now;
  normalized_title = item.normalized_title;
  published_at = item.published_at;
  ranking_score =
      hot_ranking_coordinate platform item.provider_score item.published_at source_priority;
  status = status_or_active item.status;
  summary = item.summary;
  title = item.title;
}

-- occurrenceData, over a row whose identifier, source and content item stay.
occurrence_data : ContentInput → ℕ → PostRow → PostRow
occurrence_data item now row = record row {
  boosted_by = item.boosted_by;
  external_id = item.external_id;
  community_name = item.community_name;
  last_seen_at = now;
  provider_author = item.provider_author;
  provider_published_at = item.provider_published_at;
  provider_deleted_at = item.provider_deleted_at;
  provider_comment_count = item.provider_comment_count;
  provider_favourite_count = item.provider_favourite_count;
  provider_language = item.provider_language;
  provider_score = item.provider_score;
  provider_share_count = item.provider_share_count;
  provider_updated_at = item.provider_updated_at;
  provider_url = item.provider_url;
}

-- The first deletion that was seen is kept: existing.providerDeletedAt ?? item.providerDeletedAt.
unfoldable pub kept_deletion : Option ℕ → Option ℕ → Option ℕ
kept_deletion old none = none
kept_deletion none (some t) = some t
kept_deletion (some s) (some t) = some s

-- where: { sourceId_externalId: { externalId, sourceId } }
unfoldable pub has_key : ℕ → String → PostRow → Bool
has_key source_id external_id p = p.source_id == source_id && str_eq p.external_id external_id

is_live_post_of : ℕ → PostRow → Bool
is_live_post_of content_id p =
    p.content_item_id == content_id && elim p.provider_deleted_at [ none ↦ true | some _ ↦ false ]

new_media : ℕ → MediaInput → MediaRow
new_media content_id asset = record {
  content_item_id = content_id;
  asset = asset;
  cache_state = CacheState.remote_only;
  storage_key = none;
  sha256 = none;
  perceptual_hash = none;
}

create_media : ℕ → ContentInput → Db → Db
unfolding new_media
create_media content_id item db = record db {
  media = map (λ (asset : MediaInput). new_media content_id asset) item.media ++ db.media;
}

-- sourcePost.update for the occurrence that exists
pub update_occurrence : ContentInput → ℕ → PostRow → List PostRow → List PostRow
unfolding occurrence_data kept_deletion
update_occurrence item now existing posts =
    update_where (λ (p : PostRow). p.id == existing.id)
      (λ (p : PostRow). record (occurrence_data item now p) {
        provider_deleted_at = kept_deletion existing.provider_deleted_at item.provider_deleted_at;
      })
      posts

-- the branch `if (existing)`, up to the media
rewrite_existing : Platform → ℕ → ℤ → ContentInput → PostRow → Db → Db
unfolding update_occurrence content_data is_live_post_of create_media
rewrite_existing platform now priority item existing db =
    let posts = update_occurrence item now existing db.posts in
    let active = count_where (is_live_post_of existing.content_item_id) posts in
    let contents =
      update_where (λ (c : ContentRow). c.id == existing.content_item_id)
        (λ (c : ContentRow). record (content_data platform item now priority c) {
          status = if ltb 0 active then ContentStatus.active else ContentStatus.removed_at_source;
        })
        db.contents in
    let media =
      delete_where (λ (m : MediaRow). m.content_item_id == existing.content_item_id) db.media in
    create_media existing.content_item_id item
      (record db { posts = posts; contents = contents; media = media })

update_existing : Platform → ℕ → ℤ → ContentInput → PostRow → Db → Option Db
unfolding rewrite_existing
update_existing platform now priority item existing db =
    Option.map (refresh_content_search_text platform existing.content_item_id) (
      replace_provider_tags platform existing.content_item_id item.provider_tags
        (rewrite_existing platform now priority item existing db))

new_content : Platform → ℕ → ℤ → ContentInput → ℕ → ContentRow
unfolding content_data
new_content platform now priority item content_id =
    content_data platform item now priority (record {
      id = content_id;
      title = none;
      normalized_title = none;
      summary = none;
      author_name = none;
      content_rating = item.content_rating;
      content_warning = none;
      status = ContentStatus.active;
      published_at = item.published_at;
      last_seen_at = now;
      primary_source_post_id = none;
      canonical_url = none;
      canonical_url_hash = none;
      ranking_score = hot_ranking_coordinate platform none item.published_at priority;
      random_key = content_random_key platform content_id;
      search_text = none;
      duplicate_analyzed_at = none;
      duplicate_group_id = none;
      duplicate_primary = true;
    })

pub new_post : ContentInput → ℕ → ℕ → ℕ → ℕ → PostRow
unfolding occurrence_data
new_post item now source_id content_id post_id = occurrence_data item now (record {
  id = post_id;
  source_id = source_id;
  content_item_id = content_id;
  external_id = item.external_id;
  provider_url = none;
  provider_author = none;
  boosted_by = none;
  community_name = none;
  provider_score = none;
  provider_comment_count = none;
  provider_favourite_count = none;
  provider_share_count = none;
  provider_language = none;
  provider_published_at = none;
  provider_updated_at = none;
  provider_deleted_at = none;
  last_seen_at = now;
})

-- the branch `else`, up to the media: a content item and its first occurrence
insert_new : Platform → ℕ → ℤ → ℕ → ContentInput → Db → Db
unfolding new_content new_post create_media
insert_new platform now priority source_id item db = create_media db.next_id item (record db {
  contents = new_content platform now priority item db.next_id ∷ db.contents;
  posts = new_post item now source_id db.next_id (suc db.next_id) ∷ db.posts;
  next_id = suc (suc db.next_id);
})

set_primary : ℕ → ℕ → Db → Db
set_primary content_id post_id db = record db {
  contents =
      update_where (λ (c : ContentRow). c.id == content_id)
        (λ (c : ContentRow). record c { primary_source_post_id = some post_id }) db.contents;
}

create_content : Platform → ℕ → ℤ → ℕ → ContentInput → Db → Option Db
unfolding insert_new set_primary
create_content platform now priority source_id item db =
    Option.map
      (λ (d : Db).
        refresh_content_search_text platform db.next_id (set_primary db.next_id (suc db.next_id) d))
      (replace_provider_tags platform db.next_id item.provider_tags
        (insert_new platform now priority source_id item db))

abbrev add_updated : ℕ → Db → Persisted → Db × Persisted
add_updated content_id db p =
    (db, record p { content_ids = p.content_ids ++ content_id ∷ []; updated = p.updated + 1 })

abbrev add_created : ℕ → Db → Persisted → Db × Persisted
add_created content_id db p =
    (db, record p { content_ids = p.content_ids ++ content_id ∷ []; created = p.created + 1 })

-- An item of the source, which the columns can hold.
unfoldable pub is_writable : ℕ → ContentInput → Bool
unfolding fits_columns
is_writable source_id item = item.source_id == source_id && fits_columns item

-- one round of the loop over `input.items`
pub persist_item : Platform → ℕ → ℤ → ℕ → ContentInput → Db → Persisted → Option (Db × Persisted)
unfolding is_writable has_key update_existing create_content
persist_item platform now priority source_id item db p =
    if is_writable source_id item
    then (elim (find (has_key source_id item.external_id) db.posts) [
      | some existing ↦
          Option.map (λ (d : Db). add_updated existing.content_item_id d p)
            (update_existing platform now priority item existing db)
      | none ↦
          Option.map (λ (d : Db). add_created db.next_id d p)
            (create_content platform now priority source_id item db)
    ])
    else none

pub persist_items :
    Platform → ℕ → ℤ → ℕ → List ContentInput → Db → Persisted → Option (Db × Persisted)
unfolding persist_item
persist_items platform now priority source_id [] db p = some (db, p)
persist_items platform now priority source_id (item ∷ items) db p =
    elim (persist_item platform now priority source_id item db p) [
      | none ↦ none
      | some (d, q) ↦ persist_items platform now priority source_id items d q
    ]

-- sourceCheckpoint.upsert in the scope "poll"
put_checkpoint : ℕ → String → List CheckpointRow → List CheckpointRow
put_checkpoint source_id value [] = record { source_id = source_id; value_json = value } ∷ []
put_checkpoint source_id value (c ∷ cs) =
    if c.source_id == source_id
    then record c { value_json = value } ∷ cs
    else c ∷ put_checkpoint source_id value cs

pub save_checkpoint : ℕ → Option String → Db → Db
unfolding put_checkpoint
save_checkpoint source_id none db = db
save_checkpoint source_id (some value) db = record db {
  checkpoints = put_checkpoint source_id value db.checkpoints;
}

abbrev pub no_items : Persisted
no_items = record { content_ids = []; created = 0; updated = 0 }

unfoldable pub persist_ingestion_page : Platform → PageInput → ℕ → Db → Option (Db × Persisted)
unfolding persist_items save_checkpoint has_source_id
persist_ingestion_page platform input now db =
    if leb (length input.items) 200
    then (elim (find (has_source_id input.source_id) db.sources) [
      | none ↦ none
      | some source ↦
          Option.map
            (λ (r : Db × Persisted). (save_checkpoint input.source_id input.checkpoint r.0, r.1))
            (persist_items platform now source.priority input.source_id input.items db no_items)
    ])
    else none
