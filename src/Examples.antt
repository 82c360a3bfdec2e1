-- ===== src/Examples.antt =====
-- The data on which the tests run: a platform of concrete functions, a source, a database, and what
-- a poll of the source meets.
use Prim.Native.String.{String}
use mirth_spool.Base.{ℕ, true, false, none, some, [], ◌∷◌, ◌&&◌, ◌==◌, leb, ltb}
use mirth_spool.Base.Int.{pos}
use mirth_spool.Base.Double.{Double, bits, DoubleOps}
use mirth_spool.Db.{SourceKind, SourceStatus, ContentRating, RunTrigger, RunStatus}
use mirth_spool.Text.{Url, Platform}
use mirth_spool.Connector.Page.{returns, requests, response}
use mirth_spool.Ingestion.Rows.{SourceRow, RunRow, Db, ContentInput, empty_stats}
use mirth_spool.Ingestion.Persist.{PageInput}
use mirth_spool.Ingestion.Runs.{ClaimInput, FinalizeInput, EndStatus}
use mirth_spool.Worker.Bounded.{IngestionLimits}
use mirth_spool.Worker.Poll.{Job, Surroundings, Connector}

abbrev bits_of : Double → ℕ
bits_of (bits n) = n

-- Numbers that are not negative, by their integral part.
abbrev pub test_doubles : DoubleOps
test_doubles = record {
  of_ℤ = λ _. bits 0;
  add = λ a _. a;
  sub = λ a _. a;
  mul = λ a _. a;
  div = λ a _. a;
  neg = λ a. a;
  abs = λ a. a;
  sign = λ a. a;
  min = λ a _. a;
  max = λ a _. a;
  exp = λ a. a;
  ceil = λ a. bits_of a;
  log1p = λ a. a;
  to_fixed = λ _ a. a;
  lt = λ a b. ltb (bits_of a) (bits_of b);
  eq = λ a b. bits_of a == bits_of b;
}

abbrev pub test_url : String → Url
test_url path = record {
  protocol = "https:";
  username = "";
  password = "";
  hostname = "example.org";
  port = "";
  pathname = path;
  search_params = [];
  hash = "";
}

abbrev pub test_platform : Platform
test_platform = record {
  nfkc = λ s. s;
  lower = λ s. s;
  is_letter_or_number = λ c. leb 48 c && leb c 122;
  parse_url = λ s. some (test_url s);
  print_url = λ u. u.pathname;
  sha256_hex = λ s. s;
  md5_word = λ n. n;
  sha256_word = λ _. 7;
  doubles = test_doubles;
}

abbrev pub test_source : SourceRow
test_source = record {
  id = 1;
  kind = SourceKind.rss;
  display_name = "Comics";
  enabled = true;
  status = SourceStatus.active;
  priority = pos 0;
  poll_interval_seconds = 900;
  default_content_rating = ContentRating.safe;
  config_json = "{}";
  credentials = [];
  next_poll_at = none;
  last_attempt_at = none;
  last_success_at = none;
  consecutive_failures = 2;
  last_error_code = none;
  last_error_message = none;
  deleted_at = none;
}

-- A run that an earlier worker left running.
abbrev pub stale_run : RunRow
stale_run = record {
  id = 2;
  source_id = 1;
  trigger = RunTrigger.scheduled;
  status = RunStatus.running;
  job_id = "old";
  attempt = 1;
  started_at = 1000;
  finished_at = none;
  stats = empty_stats;
  error_code = none;
  error_message = none;
  rate_limit_reset_at = none;
}

abbrev pub test_db : Db
test_db = record {
  sources = test_source ∷ [];
  runs = stale_run ∷ [];
  posts = [];
  contents = [];
  media = [];
  tags = [];
  content_tags = [];
  checkpoints = [];
  groups = [];
  links = [];
  audits = [];
  users = 9 ∷ [];
  next_id = 10;
}

abbrev pub test_item : ContentInput
test_item = record {
  source_id = 1;
  external_id = "post-1";
  provider_url = none;
  provider_author = none;
  boosted_by = none;
  community_name = none;
  provider_score = none;
  provider_comment_count = none;
  provider_favourite_count = none;
  provider_share_count = none;
  provider_language = none;
  provider_published_at = none;
  provider_updated_at = none;
  provider_deleted_at = none;
  title = some "A comic";
  normalized_title = some "a comic";
  summary = none;
  author_name = none;
  content_rating = ContentRating.safe;
  content_warning = none;
  status = none;
  published_at = 5000;
  canonical_url = some "/comic";
  canonical_url_hash = some "abc";
  provider_tags = "comics" ∷ [];
  media = [];
}

abbrev pub test_page : PageInput
test_page = record { checkpoint = some "7"; items = test_item ∷ []; source_id = 1 }

abbrev pub test_claim : ClaimInput
test_claim = record {
  attempt = 1;
  job_id = "job";
  source_id = 1;
  stale_before = 2000;
  started_at = 3000;
  trigger = RunTrigger.scheduled;
}

abbrev pub test_finalize : FinalizeInput
test_finalize = record {
  error_code = some "SOURCE_NOT_FOUND";
  error_message = none;
  finished_at = 9000;
  next_poll_at = 909000;
  rate_limit_reset_at = none;
  run_id = 2;
  source_status = SourceStatus.config_error;
  stats = empty_stats;
  status = EndStatus.failed;
  succeeded = false;
}

abbrev pub test_limits : IngestionLimits
test_limits = record {
  max_bytes = 1000;
  max_duration_ms = 60000;
  max_items = 100;
  max_pages = 3;
  max_requests = 2;
}

abbrev pub test_job : Job
test_job = record {
  id = some "job";
  attempts_made = 0;
  source_id = 1;
  trigger = RunTrigger.scheduled;
}

-- A connector that makes one request and returns an empty page with more behind it.
abbrev test_connector : Connector
test_connector config credentials checkpoint =
    requests (record { url = "https://example.org/feed"; method = "GET"; body = [] })
      (λ reply.
        returns
          (record { has_more = true; next_checkpoint = some "x"; posts = []; rate_limit = none }))

abbrev pub test_env : Surroundings
test_env = record {
  registry = λ _. some test_connector;
  decrypt = λ _ _. none;
  http = λ _ _. response (record { status = 200; body = 1 ∷ 2 ∷ [] });
  has_duplicate_queue = true;
  aborted = λ _. false;
  cancelled = false;
  started_at = 200000;
  page_time = λ n. 200001;
  finished_at = 200002;
  claim_commits = true;
  page_commits = λ _. true;
  success_commits = true;
  failure_commits = true;
  digest_word = λ a b. a;
}
