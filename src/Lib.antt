-- ===== src/Lib.antt =====
-- A verification library for dns-go, a DNS server with an answer cache, global server load
-- balancing (GSLB), ad blocking, a database of zones and records, and a web interface.
--
-- How the program works. A query reaches `Handler.ServeDNS` (dns/handler.go). Names of GSLB
-- policies go to `Engine.Resolve` (gslb/engine.go), which reads policies and pools through the
-- storages of gslb/policy.go and gslb/pool.go and the health that `HealthCheckWorker`
-- (gslb/healthcheck_worker.go) keeps. Blocked names are found by `Filter` (adblock/filter.go),
-- whose rules adblock/rule.go parses from the lists that adblock/loader.go reads. Other answers
-- come from `DNSCache` (dns/cache.go), from the records of the zones (storage/record.go), along
-- CNAME records, or from the upstream servers (dns/resolver.go). A secondary server
-- copies the tables of a primary (sync/worker.go, web/api_sync.go). Queries are noted by
-- `lastQueryTracker` (dns/query_tracker.go) and in batches (dns/buffered_batch.go).
--
-- `serve_dns` ties the parts together: it takes the answers of the filter, the engine, the storages
-- and the upstream servers as functions, changes the answer cache, and lists what it does to others
-- as events, the newest first.
--
-- Which file models what.
--   Base        texts as lists of bytes, Go maps as association lists, int64 and uint64 values as
--               numbers below 2 ^ 64, results that may be an error, and their lemmas.
--   Cache       dns/cache.go: `DNSCache` is the record `Cache`, and `Get`, `Set`, `Delete`, `Clear`,
--               `removeExpired`, `checkPrefetch` and `evictOldestLocked` are functions on it. Below
--               it: Size, Read, Evict and Store for the invariant, Run and Prefetch for histories of
--               calls, Removal, and Race for a `Get` beside other goroutines.
--   Gslb        Types: model/gslb.go. Database: the transactions of the storages. Policies, Pools:
--               gslb/policy.go and gslb/pool.go, with Coherence and History for what their caches
--               come to. Members, Engine: gslb/engine.go, with Select and Resolve. Health, with
--               Hysteresis, and Runners, with Single: gslb/healthcheck_worker.go.
--   Adblock     Rule, Filter, Loader: the files of those names in adblock. Suffix, Named and
--               Priority are about the filter, and the modules below Loader about `ParseRules`.
--   Dns         Tracker, Batch, Resolver: dns/query_tracker.go, dns/buffered_batch.go and
--               dns/resolver.go. The others are parts of dns/handler.go. Chain: the CNAME chain,
--               with Walk and, for what it asks the upstream servers, Calls.
--               Message: what is answered without a lookup, and below it Convert: from rows to
--               records of the wire, with Range. Local: names that stay here, with Private. Serve:
--               `ServeDNS` in stages, where State is what the handler holds, calls and causes, and
--               Back the stages behind the engine; Forward, Asks, Passing and Passes are about the
--               queries that are sent on and the targets of CNAME records that are asked for, Reply
--               about the messages, Stored and Again about later answers from the cache, Zones about
--               the codes for names of a zone, Valid about the cache.
--               Lifecycle: the prefetch and the changes of the cache, with Invariant.
--   Storage     Wildcard, with OneLevel, Lookup, with Exists, and Records, with Laws, Touch, Writes and Fresh:
--               storage/record.go. Zones, with Fresh: storage/zone.go. Sources, with Laws and
--               Fresh: storage/adblock.go.
--   Sync        `fullSync` and `incrementalSync` of sync/worker.go: statements in the order in which the
--               transaction sends them, over a database and a primary whose every call may fail. Rows,
--               Replaced, Versions and Full are about what they leave. Export: the tables that
--               storage/sync_version.go and web/api_sync.go send, each read at its own moment. Schema:
--               the columns of the tables in storage/migration.go, and those that are left out.
--               Exported, Current and Carried follow a row from the primary to the secondary.
-- The modules named Tests run the definitions and apply the theorems to concrete values.
--
-- Conventions. A method with a receiver is a function that takes the state and returns it. Times are
-- counts of nanoseconds, and every reading of the clock is an argument; so are random draws and the
-- outcomes of probes. Pointers to cache entries are ids. An error carries no text where nothing
-- reads it. Texts are ASCII. A `range` over a map visits an association list in its order, which no
-- theorem fixes. Package regexp, package net, the GeoIP reader, the SQL database, the exchange of
-- DNS messages, the package miekg/dns and the clock's floats are parameters: records of functions,
-- each of which may fail.
--
-- Bounds. `Get` retries while others replace the entry that it holds: its rounds are a list, and the
-- loop is shown to end in the first round without interference. The walk over the labels of a
-- name has one round for each byte of it, which is shown to be enough. The CNAME chain has the eight
-- rounds of the source. Sums of weights and products of TTLs stay below 2 ^ 63 where a theorem
-- says so; all counters wrap as those of the source do.
--
-- Not modelled. The web interface, the configuration, the process log, sockets and tickers; the
-- SQL statements themselves; downloads. The caches of the
-- storages may be read by several queries at once: `serve_dns` takes what they answer to it as
-- given. The Bloom filter of adblock/filter.go is filled and never
-- read. Locks are not modelled: a method that holds its lock throughout is one step, and `Get`, which
-- does not, is split where it releases it.
pub mod Base
pub mod Adblock
pub mod Cache
pub mod Dns
pub mod Gslb
pub mod Storage
pub mod Sync
