-- ===== src/Ingestion/Tags/Frame.antt =====
-- What the tags and the search text leave alone: the posts, the sources, the runs and the
-- checkpoints. They draw identifiers from the supply and never put one back.
use Prim.Native.String.{String}
use mirth_spool.Base.{ℕ, ◌≤◌, ◌≡◌, none, some, List, [], ◌∷◌, arith, take}
use mirth_spool.Base.Table.{delete_where}
use mirth_spool.Text.{Platform}
use mirth_spool.Ingestion.Rows.{Db}
use mirth_spool.Ingestion.Tags.{
  parse_tags, slugs, distinct, attach_tag, attach_tags, is_provider_tag_of, replace_provider_tags,
  refresh_content_search_text,
}

pub record SameRest (a b : Db) : Type 0 where
  pub posts : b.posts ≡ a.posts
  pub sources : b.sources ≡ a.sources
  pub runs : b.runs ≡ a.runs
  pub checkpoints : b.checkpoints ≡ a.checkpoints
  pub next_id : a.next_id ≤ b.next_id

attach_tag-SameRest :
    (content_id : ℕ) (slug : String) (db : Db) → SameRest db (attach_tag content_id slug db)
unfolding attach_tag
attach_tag-SameRest content_id slug db = ground arith

attach_tags-SameRest :
    (content_id : ℕ) (tags : List String) (db : Db) → SameRest db (attach_tags content_id tags db)
unfolding attach_tags
attach_tags-SameRest content_id [] db = ground arith
attach_tags-SameRest content_id (slug ∷ tags) db = ground (
  arith,
  attach_tag-SameRest content_id slug db,
  attach_tags-SameRest content_id tags (attach_tag content_id slug db),
)

-- The replacement fails when the tags do not parse.
pub replace_provider_tags-none :
    (platform : Platform) (content_id : ℕ) (values : List String) (db : Db)
    → parse_tags values ≡ none
    → replace_provider_tags platform content_id values db ≡ none
unfolding replace_provider_tags
replace_provider_tags-none platform content_id values db e = rw (e, replace_provider_tags)

-- Otherwise it succeeds, and leaves the rest alone.
pub replace_provider_tags-SameRest :
    (platform : Platform) (content_id : ℕ) (values ts : List String) (db : Db)
    → parse_tags values ≡ some ts
    → (d : Db) × (replace_provider_tags platform content_id values db ≡ some d) × SameRest db d
unfolding replace_provider_tags
replace_provider_tags-SameRest platform content_id values ts db e =
    let start : Db = record db {
      content_tags = delete_where (is_provider_tag_of content_id) db.content_tags;
    } in
    let tags = take 50 (distinct [] (slugs platform ts)) in
    (
      attach_tags content_id tags start,
      rw (e, replace_provider_tags),
      ground (arith, attach_tags-SameRest content_id tags start),
    )

pub refresh-SameRest :
    (platform : Platform) (content_id : ℕ) (db : Db)
    → SameRest db (refresh_content_search_text platform content_id db)
unfolding refresh_content_search_text
refresh-SameRest platform content_id db = ground arith
