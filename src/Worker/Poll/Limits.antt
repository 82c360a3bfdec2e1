-- ===== src/Worker/Poll/Limits.antt =====
-- A run stays within its limits: pages, items and requests, however the connector behaves, and the
-- loop ends.
use Prim.Native.String.{String}
use mirth_spool.Base.{
  ℕ, zero, suc, ◌+◌, ◌≤◌, ◌<◌, ◌≡◌, refl, subst, ◌∙◌, some, List, [], arith, leb, ltb, length,
  Option-cases, Bool-cases, inl, inr,
}
use mirth_spool.Base.Maybe.{traverse, traverse-length}
use mirth_spool.Text.{Platform}
use mirth_spool.Connector.Errors.{other}
use mirth_spool.Connector.Page.{Page, parse_page}
use mirth_spool.Ingestion.Rows.{SourceRow, Stats, Db}
use mirth_spool.Ingestion.Persist.{Persisted}
use mirth_spool.Ingestion.Persist.Counts.{persist_ingestion_page_rest}
use mirth_spool.Worker.Content.{normalized_content}
use mirth_spool.Worker.Bounded.{
  IngestionLimits, Fetched, page, threw, run_fetch, assert_within_limits,
}
use mirth_spool.Worker.Poll.{
  Connector, Surroundings, Progress, Round, continues, finishes, fails, absorb, after_page,
  store_page, take_page, take_fetched, round, Ended, completed, broke, loop, fetch_pages,
  first_progress, decrypt_all,
}
use mirth_spool.Worker.Bounded.Fetching.{IsFetching, run_fetch-IsFetching}

-- The invariant of the loop. `db` is the database that the run was claimed in.
pub record IsWithin (limits : IngestionLimits) (db : Db) (p : Progress) : Type 0 where
  pub pages : p.stats.pages_fetched ≤ limits.max_pages
  pub items : p.stats.items_seen ≤ limits.max_items
  pub requests : p.stats.provider_requests ≤ limits.max_requests
  pub accounted : p.stats.items_created + p.stats.items_updated ≡ p.stats.items_seen
  pub runs : p.db.runs ≡ db.runs
  pub sources : p.db.sources ≡ db.sources

abbrev RoundKeeps : IngestionLimits → Db → ℕ → Round → Type 0
RoundKeeps limits db n (continues p) = IsWithin limits db p × (p.stats.pages_fetched ≡ n + 1)
RoundKeeps limits db n (finishes p) = IsWithin limits db p
RoundKeeps limits db n (fails error p) = IsWithin limits db p

module _ (platform : Platform) (limits : IngestionLimits) (env : Surroundings) (db : Db) where
  abbrev pub EndsWithin : Ended → Type 0
  EndsWithin (completed p) = IsWithin limits db p
  EndsWithin (broke error p) = IsWithin limits db p

  -- What a stored page leaves alone, and how many items it counts.
  store_page_rest :
      (source : SourceRow) (pg : Page) (p : Progress) (d : Db) (q : Persisted)
      → store_page platform limits env source pg p ≡ some (d, q)
      → (d.sources ≡ p.db.sources)
        × (d.runs ≡ p.db.runs)
        × (q.created + q.updated ≡ length pg.posts)
  unfolding store_page
  store_page_rest source pg p d q e =
      elim (Option-cases (traverse (normalized_content platform source) pg.posts)) [
        | inl bad ↦ cc (rw (bad, store_page) at e)
        | inr (items, made) ↦ elim (Bool-cases (env.page_commits p.stats.pages_fetched)) [
          | inr stop ↦ cc (rw (made, stop, store_page) at e)
          | inl go ↦
              let (sources, runs, total) =
                persist_ingestion_page_rest platform
                  (record { checkpoint = pg.next_checkpoint; items = items; source_id = source.id })
                  (env.page_time p.stats.pages_fetched) p.db d q (rw (made, go, store_page) at e) in
              (
                sources,
                runs,
                total ∙ traverse-length (normalized_content platform source) pg.posts items made,
              )
        ]
      ]

  absorb-IsWithin :
      (pg : Page) (p : Progress) (d : Db) (q : Persisted)
      → IsWithin limits db p
      → p.stats.pages_fetched + 1 ≤ limits.max_pages
      → p.stats.items_seen + length pg.posts ≤ limits.max_items
      → d.sources ≡ p.db.sources
      → d.runs ≡ p.db.runs
      → q.created + q.updated ≡ length pg.posts
      → RoundKeeps limits db p.stats.pages_fetched
          (after_page platform limits env pg (absorb platform limits env pg d q p))
  unfolding after_page absorb
  absorb-IsWithin pg p d q w pages items sources runs total = ground arith

  take_page-IsWithin :
      (source : SourceRow) (pg : Page) (p : Progress)
      → IsWithin limits db p
      → p.stats.pages_fetched + 1 ≤ limits.max_pages
      → RoundKeeps limits db p.stats.pages_fetched (take_page platform limits env source pg p)
  unfolding take_page
  take_page-IsWithin source pg p w pages =
      elim (Bool-cases (ltb limits.max_items (p.stats.items_seen + length pg.posts))) [
        | inl over ↦ rw (over, take_page) w
        | inr fits ↦ elim (Option-cases (store_page platform limits env source pg p)) [
          | inl stop ↦ rw (fits, stop, take_page) w
          | inr ((d, q), made) ↦
              let (sources, runs, total) = store_page_rest source pg p d q made in
              rw (fits, made, take_page)
                (absorb-IsWithin pg p d q w pages (ground arith) sources runs total)
        ]
      ]

  take_fetched-IsWithin :
      (source : SourceRow) (f : Fetched) (p : Progress)
      → IsWithin limits db p
      → p.stats.pages_fetched + 1 ≤ limits.max_pages
      → RoundKeeps limits db p.stats.pages_fetched (take_fetched platform limits env source f p)
  unfolding take_fetched
  take_fetched-IsWithin source (threw error) p w pages = w
  take_fetched-IsWithin source (page raw) p w pages =
      elim (Option-cases (parse_page platform raw)) [
        | inl bad ↦ rw (bad, take_fetched) w
        | inr (pg, good) ↦ rw (good, take_fetched) (take_page-IsWithin source pg p w pages)
      ]

  fetching-IsWithin :
      (p : Progress) (stats : Stats)
      → IsWithin limits db p
      → IsFetching limits p.stats stats
      → IsWithin limits db (record p { stats = stats })
  fetching-IsWithin p stats w f = record {
    pages = rw f.pages w.pages;
    items = rw f.seen w.items;
    requests = f.requests w.requests;
    accounted = omega (arith, f.created, f.updated, f.seen, w.accounted);
    runs = w.runs;
    sources = w.sources;
  }

  module _ (fetch_page : Connector) (credentials : List (String × String))
      (source : SourceRow) where
    round-IsWithin :
        (p : Progress)
        → IsWithin limits db p
        → RoundKeeps limits db p.stats.pages_fetched
            (round platform limits env fetch_page credentials source p)
    unfolding round
    round-IsWithin p w =
        let check = assert_within_limits (env.aborted p.stats.pages_fetched) p.stats limits in
        elim (Option-cases check) [
          | inr (error, e) ↦ rw (e, round) w
          | inl fine ↦ elim (Bool-cases (leb limits.max_pages p.stats.pages_fetched)) [
            | inl last ↦ rw (fine, last, round) w
            | inr more ↦
                let fetch = fetch_page source.config_json credentials p.checkpoint in
                let got = run_fetch limits env.http fetch p.stats in
                let f = run_fetch-IsFetching limits env.http fetch p.stats in
                let keeps =
                  take_fetched-IsWithin source got.0 (record p { stats = got.1 })
                    (fetching-IsWithin p got.1 w f) (ground (arith, f.pages)) in
                rw (fine, more, round)
                  (subst
                    (λ n.
                      RoundKeeps limits db n (
                        take_fetched platform limits env source got.0 (record p { stats = got.1 })))
                    f.pages keeps)
          ]
        ]

    -- With fuel for the pages that are left and one round more, the loop ends, within the limits.
    loop-IsWithin :
        (fuel : ℕ) (p : Progress)
        → IsWithin limits db p
        → limits.max_pages < fuel + p.stats.pages_fetched
        → (r : Ended) × (loop platform limits env fetch_page credentials source fuel p ≡ some r)
          × EndsWithin r
    unfolding loop
    loop-IsWithin zero p w h = absurd (omega (arith, w.pages))
    loop-IsWithin (suc fuel) p w h =
        step (round platform limits env fetch_page credentials source p) (round-IsWithin p w)
          (loop-IsWithin fuel)
      where
        step :
            (r : Round)
            → RoundKeeps limits db p.stats.pages_fetched r
            → ((q : Progress)
                → IsWithin limits db q
                → limits.max_pages < fuel + q.stats.pages_fetched
                → (e : Ended) × (loop platform limits env fetch_page credentials source fuel q
                    ≡ some e)
                  × EndsWithin e)
            → (e : Ended) × (elim r [
              | continues next ↦ loop platform limits env fetch_page credentials source fuel next
              | finishes last ↦ some (completed last)
              | fails error last ↦ some (broke error last)
            ]
                ≡ some e)
              × EndsWithin e
        step (continues q) k ih = ih q k.0 (omega (arith, k.1))
        step (finishes q) k ih = (completed q, refl, k)
        step (fails error q) k ih = (broke error q, refl, k)

  first-IsWithin :
      (source : SourceRow) → IsWithin limits db (first_progress platform limits env source db)
  unfolding first_progress
  first-IsWithin source = record {
    pages = omega arith;
    items = omega arith;
    requests = omega arith;
    accounted = omega arith;
    runs = refl;
    sources = refl;
  }

  -- The pages of a run are fetched to an end, within the limits: the fuel is enough.
  pub fetch_pages-IsWithin :
      (source : SourceRow)
      → (e : Ended) × (fetch_pages platform limits env source
            (first_progress platform limits env source db)
          ≡ some e)
        × EndsWithin e
  unfolding fetch_pages
  fetch_pages-IsWithin source =
      let start = first_progress platform limits env source db in
      let w = first-IsWithin source in
      elim (Option-cases (decrypt_all platform limits env source.id source.credentials [])) [
        | inl bad ↦ (broke other start, rw (bad, fetch_pages) refl, w)
        | inr (credentials, good) ↦ elim (Option-cases (env.registry source.kind)) [
          | inl absent ↦ (broke other start, rw (good, absent, fetch_pages) refl, w)
          | inr (fetch_page, there) ↦
              let (e, ends, within) =
                loop-IsWithin fetch_page credentials source (suc limits.max_pages) start w
                  (omega arith) in
              (e, rw (good, there, fetch_pages) ends, within)
        ]
      ]
