-- ===== src/Ingestion/Persist/Keys.antt =====
-- No two occurrences have one source and external identifier, and a page that is stored again
-- creates nothing.
use Prim.Native.String.{String}
use mathlib.Core.Option.{some-injective}
use native.Mathlib.Nat.{le_trans}
use text.Mathlib.TextEquality.{eq_iff}
use mirth_spool.Base.{
  ℕ, suc, ◌≤◌, ◌<◌, ◌≡◌, refl, sym, subst, ap, ◌∙◌, Bool, true, Option, none, some, List, [], ◌∷◌,
  arith, ==_refl, le→leb, find, any, length, Option-cases, inl, inr, All,
}
use mirth_spool.Base.Int.{ℤ}
use mirth_spool.Base.Table.{
  count_where, any_of_find-none, any_of_find-some, find_of_any, count-zero_of_any,
  count-update_where-All, count-update_where, any-update_where-All, All-update_where,
}
use mirth_spool.Text.{Platform}
use mirth_spool.Ingestion.Rows.{PostRow, Db, ContentInput}
use mirth_spool.Ingestion.Persist.{
  PageInput, Persisted, has_key, occurrence_data, update_occurrence, new_post, persist_items,
  no_items, save_checkpoint, persist_ingestion_page,
}
use mirth_spool.Ingestion.Persist.Counts.{
  Stored, persist_item-Stored, AllValid, IsStorable, persist_ingestion_page_total,
  persist_ingestion_page-IsStorable, persist_items-Counted, persist_ingestion_page_rest,
}
use mirth_spool.Ingestion.Persist.Rewritten.{
  has_post_id, HasUniqueKeys, rewritten, keeps_key, rewritten-has_post_id, rewritten-has_key,
}

module _ (item : ContentInput) (now : ℕ) (source_id : ℕ) (posts : List PostRow) (next_id : ℕ) where
  -- The occurrence that is updated: identifiers and keys stay as they are.
  module _ (old : PostRow) (inv : HasUniqueKeys posts next_id)
      (found : find (has_key source_id item.external_id) posts ≡ some old) where
    key_kept :
        (s : ℕ) (e : String)
        → All
            (λ x.
              has_post_id old.id x ≡ true → has_key s e (rewritten item now old x) ≡ has_key s e x)
            posts
    key_kept s e =
        all_map posts (keeps_key source_id item.external_id old posts (inv.ids old.id) found)
      where
        all_map :
            (xs : List PostRow)
            → All
                (λ x. has_post_id old.id x ≡ true → has_key source_id item.external_id x ≡ true)
                xs
            → All
                (λ x.
                  has_post_id old.id x ≡ true
                  → has_key s e (rewritten item now old x) ≡ has_key s e x)
                xs
        all_map [] h = tt
        all_map (x ∷ xs) h =
            ((λ p. rewritten-has_key item now old source_id s e x (h.0 p)), all_map xs h.1)

    update-HasUniqueKeys : HasUniqueKeys (update_occurrence item now old posts) next_id
    unfolding update_occurrence rewritten has_post_id
    update-HasUniqueKeys = record {
      ids = λ i.
          rw
            (count-update_where (has_post_id i) (has_post_id old.id) (rewritten item now old)
              (λ x _. rewritten-has_post_id item now old i x) posts)
            (inv.ids i);
      fresh =
          All-update_where _ (has_post_id old.id) (rewritten item now old) posts (λ x h. h)
            inv.fresh;
      keys = λ s e.
          rw
            (count-update_where-All (has_key s e) (has_post_id old.id) (rewritten item now old)
              posts (key_kept s e))
            (inv.keys s e);
    }

    update-any :
        (s : ℕ) (e : String)
        → any (has_key s e) (update_occurrence item now old posts) ≡ any (has_key s e) posts
    unfolding update_occurrence rewritten has_post_id
    update-any s e =
        any-update_where-All (has_key s e) (has_post_id old.id) (rewritten item now old) posts
          (key_kept s e)

  fresh_weaken :
      (m : ℕ) (xs : List PostRow)
      → next_id ≤ m
      → All (λ p. p.id < next_id) xs
      → All (λ p. p.id < m) xs
  fresh_weaken m [] le h = tt
  fresh_weaken m (x ∷ xs) le h = (le_trans h.0 le, fresh_weaken m xs le h.1)

  count_fresh :
      (xs : List PostRow) (i : ℕ)
      → next_id ≤ i
      → All (λ p. p.id < next_id) xs
      → count_where (has_post_id i) xs ≡ 0
  unfolding count_where has_post_id
  count_fresh [] i le h = refl
  count_fresh (x ∷ xs) i le h = ground (arith, count_fresh xs i)

  abbrev fresh_row : PostRow
  fresh_row = new_post item now source_id next_id (suc next_id)

  -- A new occurrence, for a key that no row has.
  insert-HasUniqueKeys :
      (m : ℕ)
      → suc (suc next_id) ≤ m
      → HasUniqueKeys posts next_id
      → find (has_key source_id item.external_id) posts ≡ none
      → HasUniqueKeys (fresh_row ∷ posts) m
  unfolding count_where has_post_id has_key new_post occurrence_data
  insert-HasUniqueKeys m le inv missing = record {
    ids = λ i. ground (arith, inv.ids i, count_fresh posts i, inv.fresh);
    fresh = (le, fresh_weaken m posts (omega arith) inv.fresh);
    keys = λ s e. ground (
      arith,
      inv.keys s e,
      eq_iff item.external_id e,
      count-zero_of_any (has_key source_id item.external_id) posts
          (any_of_find-none (has_key source_id item.external_id) posts missing),
    );
  }

-- What holds after one item was stored.
record Kept (source_id : ℕ) (item : ContentInput) (db d : Db) : Type 0 where
  unique : HasUniqueKeys d.posts d.next_id
  known : any (has_key source_id item.external_id) d.posts ≡ true
  still :
      (s : ℕ) (e : String) → any (has_key s e) db.posts ≡ true → any (has_key s e) d.posts ≡ true

module _ (now source_id : ℕ) (item : ContentInput) (db d : Db) (p q : Persisted)
    (inv : HasUniqueKeys db.posts db.next_id) where
  weaken_next :
      (posts : List PostRow) (n m : ℕ) → n ≤ m → HasUniqueKeys posts n → HasUniqueKeys posts m
  weaken_next posts n m le h = record {
    ids = h.ids;
    fresh = fresh_weaken item now source_id posts n m posts le h.fresh;
    keys = h.keys;
  }

  old-Kept :
      (old : PostRow)
      → find (has_key source_id item.external_id) db.posts ≡ some old
      → Stored now source_id item (some old) db d p q
      → Kept source_id item db d
  old-Kept old found st =
      let same = update-any item now source_id db.posts db.next_id old inv found in
      record {
        unique = weaken_next d.posts db.next_id d.next_id st.next_id (
            subst (λ ps. HasUniqueKeys ps db.next_id) (sym st.posts)
              (update-HasUniqueKeys item now source_id db.posts db.next_id old inv found));
        known =
            rw st.posts (same source_id item.external_id ∙ any_of_find-some _ db.posts old found);
        still = λ s e h. rw st.posts (same s e ∙ h);
      }

  new_known :
      (posts : List PostRow)
      → any
          (has_key source_id item.external_id)
          (new_post item now source_id db.next_id (suc db.next_id) ∷ posts)
        ≡ true
  unfolding has_key new_post occurrence_data
  new_known posts = ground (arith, eq_iff item.external_id item.external_id, ==_refl source_id)

  cons_any :
      (f : PostRow → Bool) (x : PostRow) (xs : List PostRow)
      → any f xs ≡ true
      → any f (x ∷ xs) ≡ true
  cons_any f x xs h = ground arith

  new-Kept :
      find (has_key source_id item.external_id) db.posts ≡ none
      → Stored now source_id item none db d p q
      → Kept source_id item db d
  new-Kept missing st = record {
    unique = rw st.posts (
        insert-HasUniqueKeys item now source_id db.posts db.next_id d.next_id st.next_id inv
          missing);
    known = rw st.posts (new_known db.posts);
    still = λ s e h. rw st.posts (cons_any (has_key s e) _ db.posts h);
  }

  step-Kept :
      Stored now source_id item (find (has_key source_id item.external_id) db.posts) db d p q
      → Kept source_id item db d
  step-Kept st = elim (Option-cases (find (has_key source_id item.external_id) db.posts)) [
    | inl missing ↦ new-Kept missing (rw missing at st)
    | inr (old, found) ↦ old-Kept old found (rw found at st)
  ]

module _ (platform : Platform) (now : ℕ) (priority : ℤ) (source_id : ℕ) where
  abbrev AllKnown : List ContentInput → Db → Type 0
  AllKnown items d = All (λ item. any (has_key source_id item.external_id) d.posts ≡ true) items

  -- What holds after a list of items was stored.
  record KeptAll (items : List ContentInput) (db d : Db) : Type 0 where
    unique : HasUniqueKeys d.posts d.next_id
    known : AllKnown items d
    still :
        (s : ℕ) (e : String) → any (has_key s e) db.posts ≡ true → any (has_key s e) d.posts ≡ true

  persist_items-KeptAll :
      (items : List ContentInput) (db : Db) (p : Persisted) (d : Db) (q : Persisted)
      → HasUniqueKeys db.posts db.next_id
      → AllValid source_id items
      → persist_items platform now priority source_id items db p ≡ some (d, q)
      → KeptAll items db d
  unfolding persist_items
  persist_items-KeptAll [] db p d q inv h e =
      let same : db ≡ d = ap (λ (r : Db × Persisted). r.0) (some-injective _ _ e) in
      subst (λ x. KeptAll [] db x) same (record { unique = inv; known = tt; still = λ s k a. a })
  persist_items-KeptAll (item ∷ items) db p d q inv (good, h) e =
      let (d1, q1, made, st) = persist_item-Stored platform now priority source_id item db p good in
      let kept = step-Kept now source_id item db d1 p q1 inv st in
      let rest =
        persist_items-KeptAll items d1 q1 d q kept.unique h (rw (made, persist_items) at e) in
      record {
        unique = rest.unique;
        known = (rest.still source_id item.external_id kept.known, rest.known);
        still = λ s k a. rest.still s k (kept.still s k a);
      }

  -- Items whose occurrences are all there create nothing.
  persist_items-created :
      (items : List ContentInput) (db : Db) (p : Persisted) (d : Db) (q : Persisted)
      → HasUniqueKeys db.posts db.next_id
      → AllValid source_id items
      → AllKnown items db
      → persist_items platform now priority source_id items db p ≡ some (d, q)
      → q.created ≡ p.created
  unfolding persist_items
  persist_items-created [] db p d q inv h known e =
      ap (λ (r : Db × Persisted). r.1.created) (sym (some-injective _ _ e))
  persist_items-created (item ∷ items) db p d q inv (good, h) (k, known) e =
      let (d1, q1, made, st) = persist_item-Stored platform now priority source_id item db p good in
      let kept = step-Kept now source_id item db d1 p q1 inv st in
      let (old, found) = find_of_any (has_key source_id item.external_id) db.posts k in
      let st' : Stored now source_id item (some old) db d1 p q1 = rw found at st in
      persist_items-created items d1 q1 d q kept.unique h (keep items kept known)
        (rw (made, persist_items) at e)
      ∙ st'.created
    where
      keep :
          {a : Db} (xs : List ContentInput)
          → Kept source_id item db a
          → AllKnown xs db
          → AllKnown xs a
      keep [] kept h = tt
      keep (x ∷ xs) kept h = (kept.still source_id x.external_id h.0, keep xs kept h.1)

-- The parts of a stored page: the items were stored, then the checkpoint.
record PageParts (platform : Platform) (input : PageInput) (now : ℕ) (db d : Db) (q : Persisted)
    : Type 0 where
  priority : ℤ
  valid : AllValid input.source_id input.items
  before : Db
  items :
      persist_items platform now priority input.source_id input.items db no_items ≡ some (before, q)
  posts : d.posts ≡ before.posts
  next_id : d.next_id ≡ before.next_id

save_checkpoint-posts :
    (s : ℕ) (c : Option String) (db : Db)
    → ((save_checkpoint s c db).posts ≡ db.posts) × ((save_checkpoint s c db).next_id ≡ db.next_id)
unfolding save_checkpoint
save_checkpoint-posts s none db = (refl, refl)
save_checkpoint-posts s (some v) db = (refl, refl)

module _ (platform : Platform) (input : PageInput) where
  page_parts :
      (now : ℕ) (db d : Db) (q : Persisted)
      → persist_ingestion_page platform input now db ≡ some (d, q)
      → PageParts platform input now db d q
  unfolding persist_ingestion_page
  page_parts now db d q e =
      let (source, ok) = persist_ingestion_page-IsStorable platform input now db e in
      let (before, q1, made, counted) =
        persist_items-Counted platform now source.priority input.source_id input.items db no_items
          ok.items in
      let out =
        some-injective _ _
          (rw (le→leb _ _ ok.size, ok.source_found, persist_ingestion_page, made) at e) in
      let after = save_checkpoint-posts input.source_id input.checkpoint before in
      let same_d : save_checkpoint input.source_id input.checkpoint before ≡ d =
        ap (λ (r : Db × Persisted). r.0) out in
      record {
        priority = source.priority;
        valid = ok.items;
        before = before;
        items =
            subst
              (λ x.
                persist_items platform now source.priority input.source_id input.items db no_items
                ≡ some (before, x))
              (ap (λ (r : Db × Persisted). r.1) out) made;
        posts = subst (λ (x : Db). x.posts ≡ before.posts) same_d after.0;
        next_id = subst (λ (x : Db). x.next_id ≡ before.next_id) same_d after.1;
      }

  -- The occurrence of every item of the page is there.
  abbrev pub HasEvery : Db → Type 0
  HasEvery d =
      All (λ item. any (has_key input.source_id item.external_id) d.posts ≡ true) input.items

  -- Storing a page keeps the occurrences unique by source and external identifier, and leaves an
  -- occurrence for every item of the page.
  pub persist_ingestion_page-HasUniqueKeys :
      (now : ℕ) (db d : Db) (q : Persisted)
      → HasUniqueKeys db.posts db.next_id
      → persist_ingestion_page platform input now db ≡ some (d, q)
      → HasUniqueKeys d.posts d.next_id × HasEvery d
  persist_ingestion_page-HasUniqueKeys now db d q inv e =
      let parts = page_parts now db d q e in
      let kept =
        persist_items-KeptAll platform now parts.priority input.source_id input.items db no_items
          parts.before q inv parts.valid parts.items in
      (rw (parts.posts, parts.next_id) kept.unique, rw parts.posts kept.known)

  -- A page that was stored can be stored again, at any later time: nothing is created, and every
  -- item is an update.
  pub persist_ingestion_page_again :
      (now later : ℕ) (db d : Db) (q : Persisted)
      → HasUniqueKeys db.posts db.next_id
      → persist_ingestion_page platform input now db ≡ some (d, q)
      → (d' : Db) × (q' : Persisted) × (persist_ingestion_page platform input later d
          ≡ some (d', q'))
        × (q'.created ≡ 0)
        × (q'.updated ≡ length input.items)
  persist_ingestion_page_again now later db d q inv e =
      let (source, ok) = persist_ingestion_page-IsStorable platform input now db e in
      let (unique, every) = persist_ingestion_page-HasUniqueKeys now db d q inv e in
      let sources = (persist_ingestion_page_rest platform input now db d q e).0 in
      let ok' : IsStorable input source d = record {
        size = ok.size;
        source_found = rw sources ok.source_found;
        items = ok.items;
      } in
      let (d', q', made, total, ids) =
        persist_ingestion_page_total platform input later d source ok' in
      let parts = page_parts later d d' q' made in
      let none_created : q'.created ≡ 0 =
        persist_items-created platform later parts.priority input.source_id input.items d no_items
          parts.before q' unique parts.valid every parts.items in
      (d', q', made, none_created, omega (arith, total, none_created))
