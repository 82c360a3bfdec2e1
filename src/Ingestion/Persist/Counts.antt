-- ===== src/Ingestion/Persist/Counts.antt =====
-- When a page is stored, and what the loop counts: each item is created or updated, once.
use mathlib.Core.Option.{some-injective}
use native.Mathlib.Nat.{le_trans}
use Prim.Native.String.{String}
use mirth_spool.Base.{
  ℕ, suc, ◌+◌, ◌≤◌, ◌≡◌, refl, sym, ap, ◌∙◌, Bool, true, false, ◌&&◌, Option, none, some, List, [],
  ◌∷◌, arith, leb, find, length, length-append, Option-cases, Bool-cases, inl, inr, All, le→leb,
  leb→le,
}
use mirth_spool.Base.Int.{ℤ}
use mirth_spool.Text.{Platform}
use mirth_spool.Ingestion.Rows.{SourceRow, PostRow, Db, ContentInput, has_source_id}
use mirth_spool.Ingestion.Tags.{parse_tags, refresh_content_search_text}
use mirth_spool.Ingestion.Tags.Frame.{
  replace_provider_tags-none, replace_provider_tags-SameRest, refresh-SameRest,
}
use mirth_spool.Ingestion.Persist.{
  PageInput, Persisted, is_writable, has_key, update_occurrence, new_post, rewrite_existing,
  insert_new, set_primary, update_existing, create_content, add_updated, add_created, persist_item,
  persist_items, no_items, save_checkpoint, persist_ingestion_page,
}

-- An item that the transaction accepts: it is of the source, its columns hold it, and its tags parse.
unfoldable pub is_valid_item : ℕ → ContentInput → Bool
is_valid_item source_id item =
    is_writable source_id item
    && elim (parse_tags item.provider_tags) [ none ↦ false | some _ ↦ true ]

abbrev pub stored_posts : ContentInput → ℕ → ℕ → Db → Option PostRow → List PostRow
stored_posts item now source_id db (some old) = update_occurrence item now old db.posts
stored_posts item now source_id db none =
    new_post item now source_id db.next_id (suc db.next_id) ∷ db.posts

abbrev pub created_by : ℕ → Option PostRow → ℕ
created_by n (some old) = n
created_by n none = n + 1

abbrev pub next_after : ℕ → Option PostRow → ℕ
next_after n (some old) = n
next_after n none = suc (suc n)

-- What storing one item did, by whether its occurrence was there before.
pub record Stored (now source_id : ℕ) (item : ContentInput) (old : Option PostRow) (db d : Db)
    (p q : Persisted) : Type 0 where
  pub posts : d.posts ≡ stored_posts item now source_id db old
  pub created : q.created ≡ created_by p.created old
  pub total : q.created + q.updated ≡ p.created + p.updated + 1
  pub ids : length q.content_ids ≡ length p.content_ids + 1
  pub sources : d.sources ≡ db.sources
  pub runs : d.runs ≡ db.runs
  pub next_id : next_after db.next_id old ≤ d.next_id

abbrev pub AllValid : ℕ → List ContentInput → Type 0
AllValid source_id items = All (λ item. is_valid_item source_id item ≡ true) items

-- What storing some items counted.
pub record Counted (n : ℕ) (db d : Db) (p q : Persisted) : Type 0 where
  pub total : q.created + q.updated ≡ p.created + p.updated + n
  pub ids : length q.content_ids ≡ length p.content_ids + n
  pub sources : d.sources ≡ db.sources
  pub runs : d.runs ≡ db.runs

module _ (platform : Platform) (now : ℕ) (priority : ℤ) where
  update_existing-none :
      (item : ContentInput) (old : PostRow) (db : Db)
      → parse_tags item.provider_tags ≡ none
      → update_existing platform now priority item old db ≡ none
  unfolding update_existing
  update_existing-none item old db e = rw (
      replace_provider_tags-none platform old.content_item_id item.provider_tags
        (rewrite_existing platform now priority item old db) e)

  create_content-none :
      (source_id : ℕ) (item : ContentInput) (db : Db)
      → parse_tags item.provider_tags ≡ none
      → create_content platform now priority source_id item db ≡ none
  unfolding create_content
  create_content-none source_id item db e = rw (
      replace_provider_tags-none platform db.next_id item.provider_tags
        (insert_new platform now priority source_id item db) e)

  update_existing-some :
      (item : ContentInput) (old : PostRow) (db : Db) (ts : List String)
      → parse_tags item.provider_tags ≡ some ts
      → (d : Db) × (update_existing platform now priority item old db ≡ some d)
        × (d.posts ≡ update_occurrence item now old db.posts)
        × (d.sources ≡ db.sources)
        × (d.runs ≡ db.runs)
        × (db.next_id ≤ d.next_id)
  unfolding update_existing
  update_existing-some item old db ts e =
      let start = rewrite_existing platform now priority item old db in
      let (d, made, rest) =
        replace_provider_tags-SameRest platform old.content_item_id item.provider_tags ts start e in
      let last = refresh-SameRest platform old.content_item_id d in
      (
        refresh_content_search_text platform old.content_item_id d,
        rw made,
        last.posts ∙ rest.posts,
        last.sources ∙ rest.sources,
        last.runs ∙ rest.runs,
        le_trans rest.next_id last.next_id,
      )

  create_content-some :
      (source_id : ℕ) (item : ContentInput) (db : Db) (ts : List String)
      → parse_tags item.provider_tags ≡ some ts
      → (d : Db) × (create_content platform now priority source_id item db ≡ some d)
        × (d.posts ≡ new_post item now source_id db.next_id (suc db.next_id) ∷ db.posts)
        × (d.sources ≡ db.sources)
        × (d.runs ≡ db.runs)
        × (suc (suc db.next_id) ≤ d.next_id)
  unfolding create_content
  create_content-some source_id item db ts e =
      let start = insert_new platform now priority source_id item db in
      let (d, made, rest) =
        replace_provider_tags-SameRest platform db.next_id item.provider_tags ts start e in
      let primary = set_primary db.next_id (suc db.next_id) d in
      let last = refresh-SameRest platform db.next_id primary in
      (
        refresh_content_search_text platform db.next_id primary,
        rw made,
        last.posts ∙ rest.posts,
        last.sources ∙ rest.sources,
        last.runs ∙ rest.runs,
        le_trans rest.next_id last.next_id,
      )

  module _ (source_id : ℕ) (item : ContentInput) (db : Db) (p : Persisted) where
    new-Stored :
        (d : Db)
        → d.posts ≡ new_post item now source_id db.next_id (suc db.next_id) ∷ db.posts
        → d.sources ≡ db.sources
        → d.runs ≡ db.runs
        → suc (suc db.next_id) ≤ d.next_id
        → Stored now source_id item none db d p (add_created db.next_id d p).1
    new-Stored d posts sources runs ids = record {
      posts = posts;
      created = refl;
      total = omega arith;
      ids = omega (arith, length-append {0} p.content_ids (db.next_id ∷ []));
      sources = sources;
      runs = runs;
      next_id = ids;
    }

    old-Stored :
        (row : PostRow) (d : Db)
        → d.posts ≡ update_occurrence item now row db.posts
        → d.sources ≡ db.sources
        → d.runs ≡ db.runs
        → db.next_id ≤ d.next_id
        → Stored now source_id item (some row) db d p (add_updated row.content_item_id d p).1
    old-Stored row d posts sources runs ids = record {
      posts = posts;
      created = refl;
      total = omega arith;
      ids = omega (arith, length-append {0} p.content_ids (row.content_item_id ∷ []));
      sources = sources;
      runs = runs;
      next_id = ids;
    }

    -- An item that is not valid stops the transaction.
    pub persist_item-none :
        is_valid_item source_id item ≡ false
        → persist_item platform now priority source_id item db p ≡ none
    unfolding persist_item is_valid_item
    persist_item-none h = elim (Bool-cases (is_writable source_id item)) [
      | inr other ↦ rw other
      | inl same ↦ elim (Option-cases (parse_tags item.provider_tags)) [
        | inr (ts, e) ↦ cc (rw (same, e, is_valid_item) at h)
        | inl e ↦
            let old = find (has_key source_id item.external_id) db.posts in
            elim (Option-cases old) [
              | inl new ↦ rw (same, new, persist_item, create_content-none source_id item db e)
              | inr (row, there) ↦
                  rw (same, there, persist_item, update_existing-none item row db e)
            ]
      ]
    ]

    -- A valid item is stored, as an update where its occurrence is there and as a new row where not.
    pub persist_item-Stored :
        is_valid_item source_id item ≡ true
        → (d : Db) × (q : Persisted) × (persist_item platform now priority source_id item db p
            ≡ some (d, q))
          × Stored now source_id item (find (has_key source_id item.external_id) db.posts) db d p q
    unfolding persist_item is_valid_item
    persist_item-Stored h = elim (Bool-cases (is_writable source_id item)) [
      | inr other ↦ cc (rw (other, is_valid_item) at h)
      | inl same ↦ elim (Option-cases (parse_tags item.provider_tags)) [
        | inl e ↦ cc (rw (same, e, is_valid_item) at h)
        | inr (ts, e) ↦ elim (Option-cases (find (has_key source_id item.external_id) db.posts)) [
          | inl new ↦
              let (d, made, posts, sources, runs, ids) =
                create_content-some source_id item db ts e in
              let r = add_created db.next_id d p in
              rw new (d, r.1, rw (same, made), new-Stored d posts sources runs ids)
          | inr (row, there) ↦
              let (d, made, posts, sources, runs, ids) = update_existing-some item row db ts e in
              let r = add_updated row.content_item_id d p in
              rw there (d, r.1, rw (same, made), old-Stored row d posts sources runs ids)
        ]
      ]
    ]

  pub persist_items-Counted :
      (source_id : ℕ) (items : List ContentInput) (db : Db) (p : Persisted)
      → AllValid source_id items
      → (d : Db) × (q : Persisted) × (persist_items platform now priority source_id items db p
          ≡ some (d, q))
        × Counted (length items) db d p q
  unfolding persist_items
  persist_items-Counted source_id [] db p h =
      (db, p, refl, record { total = omega arith; ids = omega arith; sources = refl; runs = refl })
  persist_items-Counted source_id (item ∷ items) db p (good, h) =
      let (d, q, made, stored) = persist_item-Stored source_id item db p good in
      let (d', q', rest, counted) = persist_items-Counted source_id items d q h in
      (
        d',
        q',
        rw (made, persist_items) rest,
        record {
          total = omega (arith, counted.total, stored.total);
          ids = omega (arith, counted.ids, stored.ids);
          sources = counted.sources ∙ stored.sources;
          runs = counted.runs ∙ stored.runs;
        },
      )

  -- A stored list of items is a list of valid items.
  persist_items-AllValid :
      (source_id : ℕ) (items : List ContentInput) (db : Db) (p : Persisted) {r : Db × Persisted}
      → persist_items platform now priority source_id items db p ≡ some r
      → AllValid source_id items
  unfolding persist_items
  persist_items-AllValid source_id [] db p e = tt
  persist_items-AllValid source_id (item ∷ items) db p e =
      elim (Bool-cases (is_valid_item source_id item)) [
        | inr bad ↦
            let stop = persist_item-none source_id item db p bad in
            cc (rw (stop, persist_items) at e)
        | inl good ↦
            let (d, q, made, stored) = persist_item-Stored source_id item db p good in
            (good, persist_items-AllValid source_id items d q (rw (made, persist_items) at e))
      ]

-- A page that the transaction accepts.
pub record IsStorable (input : PageInput) (source : SourceRow) (db : Db) : Type 0 where
  pub size : length input.items ≤ 200
  pub source_found : find (has_source_id input.source_id) db.sources ≡ some source
  pub items : AllValid input.source_id input.items

module _ (platform : Platform) (input : PageInput) (now : ℕ) (db : Db) where
  -- A page of at most 200 items, whose source exists, is stored if each item is of the source, has
  -- tags that parse, numbers within the range of their columns and media with different ordinals: the result names one content item for each item of the page, and each item was either
  -- created or updated.
  pub persist_ingestion_page_total :
      (source : SourceRow)
      → IsStorable input source db
      → (d : Db) × (q : Persisted) × (persist_ingestion_page platform input now db ≡ some (d, q))
        × (q.created + q.updated ≡ length input.items)
        × (length q.content_ids ≡ length input.items)
  unfolding persist_ingestion_page
  persist_ingestion_page_total source ok =
      let (d, q, made, counted) =
        persist_items-Counted platform now source.priority input.source_id input.items db no_items
          ok.items in
      (
        save_checkpoint input.source_id input.checkpoint d,
        q,
        rw (le→leb _ _ ok.size, ok.source_found, persist_ingestion_page, made),
        omega (arith, counted.total),
        omega (arith, counted.ids),
      )

  -- Conversely, a page that was stored is such a page.
  pub persist_ingestion_page-IsStorable :
      {r : Db × Persisted}
      → persist_ingestion_page platform input now db ≡ some r
      → (source : SourceRow) × IsStorable input source db
  unfolding persist_ingestion_page
  persist_ingestion_page-IsStorable e = elim (Bool-cases (leb (length input.items) 200)) [
    | inr big ↦ cc (rw (big, persist_ingestion_page) at e)
    | inl small ↦ elim (Option-cases (find (has_source_id input.source_id) db.sources)) [
      | inl gone ↦ cc (rw (small, gone, persist_ingestion_page) at e)
      | inr (source, found) ↦
          let run =
            persist_items platform now source.priority input.source_id input.items db no_items in
          elim (Option-cases run) [
            | inl stop ↦ cc (rw (small, found, persist_ingestion_page, stop) at e)
            | inr (r, made) ↦ (
              source,
              record {
                size = leb→le _ _ small;
                source_found = found;
                items =
                    persist_items-AllValid platform now source.priority input.source_id input.items
                      db no_items made;
              },
            )
          ]
    ]
  ]

save_checkpoint_rest :
    (s : ℕ) (c : Option String) (db : Db)
    → ((save_checkpoint s c db).sources ≡ db.sources) × ((save_checkpoint s c db).runs ≡ db.runs)
unfolding save_checkpoint
save_checkpoint_rest s none db = (refl, refl)
save_checkpoint_rest s (some v) db = (refl, refl)

-- Storing a page leaves the sources and the runs as they were.
pub persist_ingestion_page_rest :
    (platform : Platform) (input : PageInput) (now : ℕ) (db d : Db) (q : Persisted)
    → persist_ingestion_page platform input now db ≡ some (d, q)
    → (d.sources ≡ db.sources) × (d.runs ≡ db.runs) × (q.created + q.updated ≡ length input.items)
unfolding persist_ingestion_page
persist_ingestion_page_rest platform input now db d q e =
    let (source, ok) = persist_ingestion_page-IsStorable platform input now db e in
    let (before, q1, made, counted) =
      persist_items-Counted platform now source.priority input.source_id input.items db no_items
        ok.items in
    let out =
      some-injective _ _
        (rw (le→leb _ _ ok.size, ok.source_found, persist_ingestion_page, made) at e) in
    let kept = save_checkpoint_rest input.source_id input.checkpoint before in
    let same = ap (λ (r : Db × Persisted). r.0) (sym out) in
    let same_q = ap (λ (r : Db × Persisted). r.1.created + r.1.updated) (sym out) in
    (
      ap (λ (x : Db). x.sources) same ∙ (kept.0 ∙ counted.sources),
      ap (λ (x : Db). x.runs) same ∙ (kept.1 ∙ counted.runs),
      omega (arith, same_q, counted.total),
    )
