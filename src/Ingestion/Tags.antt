-- ===== src/Ingestion/Tags.antt =====
-- packages/db/src/tags.ts: the provider's tags of an item, and its search text.
pub mod Frame
use Prim.Native.String.{String}
use text.Mathlib.Text.{◌==◌ as str_eq}
use mirth_spool.Base.{
  ℕ, suc, Bool, true, false, not, ◌&&◌, Option, none, some, List, [], ◌∷◌, ◌++◌, leb, ◌==◌,
  if◌then◌else◌, take, filter, find, length,
}
use mirth_spool.Base.Table.{update_where, delete_where}
use mirth_spool.Db.{TagSource, is_provider}
use mirth_spool.Text.{Platform, trim, utf16_length, slice_to, join_space}
use mirth_spool.Deduplication.Tag.{normalize_tag}
use mirth_spool.Ingestion.Rows.{SourceRow, PostRow, ContentRow, TagRow, ContentTagRow, Db}

-- providerTagSchema: each value is trimmed and has 1 to 200 code units. `none` where it throws.
trim_tags : List String → Option (List String)
trim_tags [] = some []
trim_tags (v ∷ vs) =
    let value = trim v in
    elim (trim_tags vs) [
      | none ↦ none
      | some rest ↦
          if leb 1 (utf16_length value) && leb (utf16_length value) 200
          then some (value ∷ rest)
          else none
    ]

unfoldable pub parse_tags : List String → Option (List String)
unfolding trim_tags
parse_tags values = if leb (length values) 50 then trim_tags values else none

-- requested.map(normalizeTag).filter((tag) => tag !== null)
slugs : Platform → List String → List String
slugs platform [] = []
slugs platform (v ∷ vs) =
    let rest = slugs platform vs in
    elim (normalize_tag platform v) [ none ↦ rest | some slug ↦ slug ∷ rest ]

pub includes : List String → String → Bool
includes [] s = false
includes (x ∷ xs) s = if str_eq x s then true else includes xs s

-- [...new Set(values)]: the first of each value, in order. `seen` holds what came before.
distinct : List String → List String → List String
unfolding includes
distinct seen [] = []
distinct seen (x ∷ xs) =
    let again = distinct seen xs in
    let fresh = distinct (x ∷ seen) xs in if includes seen x then again else x ∷ fresh

slug_is : String → TagRow → Bool
slug_is slug t = str_eq t.slug slug

add_content_tag : Db → ℕ → ℕ → Db
add_content_tag db content_id tag_id = record db {
  content_tags =
      record { content_item_id = content_id; tag_id = tag_id; source = TagSource.provider }
      ∷ db.content_tags;
}

-- tag.upsert by slug, then contentTag.create
attach_tag : ℕ → String → Db → Db
unfolding slug_is add_content_tag
attach_tag content_id slug db = elim (find (slug_is slug) db.tags) [
  | some tag ↦ add_content_tag db content_id tag.id
  | none ↦
      add_content_tag
        (record db {
          tags = record { id = db.next_id; label = slug; slug = slug } ∷ db.tags;
          next_id = suc db.next_id;
        })
        content_id db.next_id
]

attach_tags : ℕ → List String → Db → Db
unfolding attach_tag
attach_tags content_id [] db = db
attach_tags content_id (slug ∷ rest) db =
    attach_tags content_id rest (attach_tag content_id slug db)

is_provider_tag_of : ℕ → ContentTagRow → Bool
is_provider_tag_of content_id t = t.content_item_id == content_id && is_provider t.source

pub replace_provider_tags : Platform → ℕ → List String → Db → Option Db
unfolding parse_tags slugs distinct is_provider_tag_of attach_tags
replace_provider_tags platform content_id values db = elim (parse_tags values) [
  | none ↦ none
  | some requested ↦ some (
      attach_tags content_id (take 50 (distinct [] (slugs platform requested)))
        (record db { content_tags = delete_where (is_provider_tag_of content_id) db.content_tags }))
]

abbrev optional : Option String → List String
optional none = []
optional (some s) = s ∷ []

-- .filter((value) => Boolean(value?.trim()))
unfoldable pub is_present : String → Bool
is_present s = not (str_eq (trim s) "")

source_name : ℕ → List SourceRow → List String
source_name id [] = []
source_name id (s ∷ ss) = if s.id == id then s.display_name ∷ [] else source_name id ss

post_texts : List SourceRow → ℕ → List PostRow → List String
unfolding source_name
post_texts sources content_id [] = []
post_texts sources content_id (p ∷ ps) =
    let rest = post_texts sources content_id ps in
    if p.content_item_id == content_id
    then optional p.provider_author
      ++ (optional p.community_name ++ (source_name p.source_id sources ++ rest))
    else rest

tag_texts : List TagRow → ℕ → List ContentTagRow → List String
tag_texts tags content_id [] = []
tag_texts tags content_id (t ∷ ts) =
    let rest = tag_texts tags content_id ts in
    if t.content_item_id == content_id
    then (elim (find (λ (row : TagRow). row.id == t.tag_id) tags) [
      | none ↦ rest
      | some tag ↦ tag.label ∷ tag.slug ∷ rest
    ])
    else rest

-- the texts of an item, of its posts and their sources, and of its tags
unfoldable pub content_texts : Db → ContentRow → List String
unfolding post_texts tag_texts
content_texts db c =
    optional c.title
    ++ (optional c.normalized_title
        ++ (optional c.author_name
            ++ (optional c.summary
                ++ (post_texts db.sources c.id db.posts
                    ++ tag_texts db.tags c.id db.content_tags))))

pub search_text : Platform → Db → ContentRow → String
unfolding is_present content_texts
search_text platform db c =
    slice_to 20000 (platform.nfkc (join_space (filter is_present (content_texts db c))))

pub refresh_content_search_text : Platform → ℕ → Db → Db
unfolding search_text
refresh_content_search_text platform content_id db = record db {
  contents =
      update_where (λ (c : ContentRow). c.id == content_id)
        (λ (c : ContentRow). record c { search_text = some (search_text platform db c) })
        db.contents;
}
