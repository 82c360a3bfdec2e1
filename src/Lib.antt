-- ===== src/Lib.antt =====
-- Mirth-Spool polls sources of posts, stores them as content items, groups duplicates, caches media,
-- and shows the content to its users. This library models the parts that keep its data right.
--
-- How the parts interact. The worker (apps/worker/src/processor.ts) claims a run of a source in the
-- database, asks the source's connector for one page after another through a bounded HTTP client,
-- stores each page with its checkpoint in one transaction, and records the end of the run, which
-- sets the next poll. The claim is a lease: one run of a source is running at a time, and a run that
-- has outlived its lease is cancelled by the next claim. New content is looked at for duplicates, and
-- merges keep the groups. Requests of users are counted by Redis, and connectors reach public addresses.
--
-- Base: names that all modules share; numbers, lists, tables of rows (Prisma's updateMany, deleteMany,
--   findFirst and count), the stable sort of JavaScript, and floating-point numbers as a parameter.
--   Base.Rank is the order by several columns, in which specifications of sorted results are stated.
-- Text: trim, UTF-16 lengths and slices; Platform is what rests on Unicode, URL and digest libraries.
-- Db: the enumerations of the schema.
-- Connector.Errors: packages/connectors/src/errors.ts, with ConnectorError, classifyHttpStatus and
--   safeConnectorFailure. Connector.Page: the page schema of packages/connectors/src/schemas.ts. A
--   connector's fetchPage is a tree of requests that ends with a page or a throw.
-- Deduplication: packages/deduplication/src, with normalizeCanonicalUrl, normalizeTag, and the
--   distance of perceptual hashes.
-- Ranking: packages/db/src/feed-ranking.ts.
-- Ingestion: packages/db/src/repositories/ingestion.ts over the tables of Ingestion.Rows, which stand
--   in one record Db. Ingestion.Tags is packages/db/src/tags.ts; Ingestion.Persist is
--   persistIngestionPage; Ingestion.Runs has claimIngestionRun, finalizeIngestionRun and
--   cleanupIngestionRuns; Ingestion.Due is listDueSources. Ingestion.Columns has the ranges of the
--   columns of packages/db/prisma/schema.prisma that an item is written to.
-- Duplicates: packages/db/src/repositories/duplicates.ts, with findDuplicateMatches
--   (Duplicates.Matches), mergeDuplicateItems (Duplicates.Groups) and
--   splitDuplicateItem (Duplicates.Groups.Split). The orders of media by the columns that the
--   rows leave out are a parameter (MediaOrders).
-- Worker: apps/worker/src/processor.ts. Worker.Poll is createSourcePollProcessor with its loop;
--   Worker.Bounded is boundedHttp and assertWithinLimits; Worker.Content is normalizedContent;
--   Worker.Backoff is the delay between attempts.
-- Storage: packages/storage/src/policy.ts, with the order of evictions as a specification in
--   Storage.Policy.Reference. UserActions: packages/db/src/repositories/user-actions.ts.
-- RateLimit: packages/redis/src/fixed-window-store.ts and apps/web/src/lib/auth/rate-limit.ts.
-- Network: packages/connectors/src/ip-policy.ts.
-- Recommendations: packages/db/src/recommendations.ts.
-- Connector.Client: packages/connectors/src/http-client.ts, the client through which connectors reach
--   their providers. One request is a loop over redirects; what it sends is collected in order.
-- Accounts: apps/web/src/lib/auth, with invitation-service.ts (Accounts.Invitations),
--   member-administration.ts (Accounts.Members) and setup-service.ts (Accounts.Setup). A service reads
--   some rows before its transaction: `seen` is the state that it read, and `db` the state that its
--   transaction changes, so that a run of services has any order and any stale reads.
-- MediaCache: apps/worker/src/media-cache.ts with packages/db/src/repositories/cache.ts. Claim is the
--   transaction under the lock of the quota, Job the processor, Evict the evictions; what other
--   processes do to the tables during a download is a parameter of a job, and a run of any number of
--   processes is a sequence of writes (CacheSteps). Objects in the storage are a list of keys.
-- Feed: packages/db/src/repositories/feed.ts (Feed.Query), with apps/web/src/lib/feed: cursor.ts
--   (Feed.Cursor) and the pages of feed-service.ts in the modes of the database (Feed.Service).
--   JSON, base64url and the HMAC are a parameter. Feed.Walk is a reader who follows the cursors; its
--   proof needs that the orders of the rows are strict (Feed.Orders, Base.Strict), and what the reader
--   sees is specified without positions in Feed.Walk.Reference.
-- Maintenance: packages/db/src/repositories/maintenance.ts. A batch is found and deleted in one table
--   after the other (Maintenance.Batch), as if nobody else wrote the tables in between.
-- TokenCache: packages/redis/src/oauth-token-cache.ts. One call sends commands to Redis, which are
--   collected in order; every answer may be an error.
-- Examples and Tests: concrete data, and every property applied to it.
--
-- Conventions. An identifier is a natural number; a time is in milliseconds. A transaction is a
-- function from the database to an Option: none is a throw, after which the database is unchanged.
-- A transaction that Prisma refuses to commit is a flag of Surroundings. Redis is the record Redis
-- with the documented laws of its commands in RedisLaws. Identifiers that the code draws at random
-- come from a counter, so they are fresh. Strings are compared by code points, and
-- a slice that would cut a surrogate pair leaves the pair out.
--
-- Fuel. The loop over pages has max_pages + 1 rounds, since a round that goes on has stored a page
-- and the limit stops the next; the loop of recommendations has one round for each candidate and one
-- more. Both are shown to be enough. A wait for a token has 40 attempts, as in the code; the reader of
-- the feed is a relation, with a proof that the walk ends.
--
-- Not modelled: the providers' connectors, the sockets of the HTTP client, the download and the
-- verifier of media, the job for duplicates, the for-you feed, the search, the administration of
-- sources, the queues, the web routes and pages, configuration, logging and metrics. Raw payloads
-- and the columns that no operation here reads are left out of the rows.
pub mod Base
pub mod Text
pub mod Connector
pub mod Deduplication
pub mod Db
pub mod Ranking
pub mod Ingestion
pub mod Worker
pub mod Duplicates
pub mod Storage
pub mod UserActions
pub mod RateLimit
pub mod Network
pub mod Recommendations
pub mod Examples
pub mod Tests
pub mod Accounts
pub mod MediaCache
pub mod Feed
pub mod Maintenance
pub mod TokenCache
