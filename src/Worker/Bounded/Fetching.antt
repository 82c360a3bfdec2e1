-- ===== src/Worker/Bounded/Fetching.antt =====
-- What the requests of one page do to the counters of a run.
use mirth_spool.Base.{ℕ, ◌≤◌, ◌≡◌, ◌∙◌, arith}
use mirth_spool.Connector.Page.{HttpRequest, Reply, Fetch, returns, throws, requests}
use mirth_spool.Ingestion.Rows.{Stats}
use mirth_spool.Worker.Bounded.{IngestionLimits, bounded_http, run_fetch}

-- What the requests of one page do to the counters.
pub record IsFetching (limits : IngestionLimits) (a b : Stats) : Type 0 where
  pub pages : b.pages_fetched ≡ a.pages_fetched
  pub seen : b.items_seen ≡ a.items_seen
  pub created : b.items_created ≡ a.items_created
  pub updated : b.items_updated ≡ a.items_updated
  pub requests :
      a.provider_requests ≤ limits.max_requests → b.provider_requests ≤ limits.max_requests

bounded_http-IsFetching :
    (limits : IngestionLimits) (http : ℕ → HttpRequest → Reply) (input : HttpRequest)
    (stats : Stats)
    → IsFetching limits stats (bounded_http limits http input stats).1
unfolding bounded_http
bounded_http-IsFetching limits http input stats = ground arith

pub run_fetch-IsFetching :
    (limits : IngestionLimits) (http : ℕ → HttpRequest → Reply) (fetch : Fetch) (stats : Stats)
    → IsFetching limits stats (run_fetch limits http fetch stats).1
unfolding run_fetch
run_fetch-IsFetching limits http (returns p) stats = ground arith
run_fetch-IsFetching limits http (throws error) stats = ground arith
run_fetch-IsFetching limits http (requests input next) stats =
    let r = bounded_http limits http input stats in
    let a = bounded_http-IsFetching limits http input stats in
    let b = run_fetch-IsFetching limits http (next r.0) r.1 in
    record {
      pages = b.pages ∙ a.pages;
      seen = b.seen ∙ a.seen;
      created = b.created ∙ a.created;
      updated = b.updated ∙ a.updated;
      requests = λ h. b.requests (a.requests h);
    }
