-- ===== src/Lib.antt =====
-- A verification library for itchgrep, a search engine over the assets of itch.io.
--
-- A crawler (cmd/dataservice, internal/fetcher) plans the views of itch.io to page through and
-- stores the assets it finds. The web server (cmd/webserver, internal/web) keeps them in a cache
-- (internal/cache) and answers searches from it: with a text query through a bleve index, and
-- without one through an engine in memory. pkg/models and pkg/money hold the data they share.
--
-- Base: lists, the ints of Go, texts, sorting and binary search, for all of the library.
--   Go's strings are lists of bytes (Base/Text). An int64 that is never negative is an ℕ; one that
--   can be negative is a ℤ, and `wrap64` writes out where it wraps (Base/Int).
-- Money: pkg/money. Money/Price is Parse and toMinor, Money/Rates is USD. A float64 is a parameter
--   (Money/Float): its arithmetic is the hardware's.
-- Models: pkg/models/models.go. Models/Asset is the asset with RecencyRank, FirstSeenUnix, Pricing,
--   PriceUSD and AuthorKey. The tables behind strings.ToLower and the digits outside ASCII are a
--   parameter, `Unicode`. A time.Time is its Unix seconds, and `none` is the zero time.
-- Storage: the data directory of internal/storage/storage.go: PublishIndex, the history, the
--   checkpoint's version. The renames and removals that succeed are an argument.
-- Fetcher: internal/fetcher. Fetcher/Slice is a browse view with Valid, Path, Label, IsRoot and
--   PagesToFetch, and Fetcher/Planner is PlanSlices (planner.go). Fetcher/Tags is DiscoverTags
--   (tags.go), where a set of texts lists its members, latest first. Fetcher/Pace is the rate limiter
--   that all workers share (fetcher.go): a step relation of the clock, the two sections of acquire and
--   the calls of pause, in any order; the request that follows a return of acquire is no step of it,
--   so that a pause may come before the request is on its way. Fetcher/Fetch is FetchAssetPage and GetAssetCount with their
--   retries, each a function of what the site answers to each attempt that also lists what the worker
--   does. Fetcher/Page is ParseAssetPage over a parameter for goquery.
-- Crawl: cmd/dataservice/main.go, its decisions: decideCrawlAction, backoffDelay, and stampFirstSeen
--   in Crawl/Arrivals. Two or more records of one id cannot stand in a Go map; `put` replaces.
--   Crawl/Collect is record, attachTags and attachRecency; Crawl/Run is run, runSlice and fetchPages;
--   Crawl/Checkpoint is checkpoint and resume. What the site answers, page by page and in the order
--   in which the concurrent fetches end, is an argument of the crawl. Crawl/Build is buildIndex and
--   Crawl/Publish is fetchAndStoreAssets from end to end. A Go set of strings is the
--   ascending list of its members (Base/Text/Sets).
-- Cache: internal/cache. Cache/Options is SearchOptions; Cache/Facets is the sidebar of tags
--   (minFacetCount, rankLift, tagHistogram, topTags); Cache/Engine is buildEngine with its interned
--   tags and authors and its orderings; Cache/Engine/Filter is filterFor and matches;
--   Cache/Engine/Search is searchEngine. The rows of the engine are one list of records where the
--   source has a slice for each column, and the bitmap of the matches is a list of Booleans. A Go
--   map is an association list. Go's sort functions are the insertion sort of Base/Sort, which is
--   stable; the code's comparisons have no ties between different elements, or it asks for a
--   stable sort.
--   Cache/Query is buildQueryMode with the text queries; bleve is a parameter, and Cache/Query/Accepts
--   is what it documents of its queries. Cache/Find is Find from end to end.
--   Cache/Hits is the hit cache of internal/cache/hitcache.go: get is split into its two sections
--   under the mutex, and the requests and refreshes that interleave are a step relation. Cache/Hits/Current
--   counts the datasets beside the generation, which is a uint64. Cache/Hits/Key is hitKey.
-- Metrics: internal/metrics/metrics.go, RecordRequest with its day ring, and the totals of Snapshot.
--   A counter is taken modulo 2^64.
-- Web: Web/Filters is internal/web/templates/filters.go, the state of the search controls and its
--   parameters in the address; Web/Address is PageURL, ShareURL and requestedForm, where the encoding
--   of the parameters, by net/url, is a parameter. Web/Params is pageParam and parseFilterValues of
--   internal/web/handlers.go. Web/Handlers is HandleIndex, HandleResults, HandleResultsTags,
--   HandleNew and HandleTag (tag.go) as functions from the server's data and a request to the
--   status, the headers and the results that are rendered; the exchange rates are part of these data.
--   Web/Limiter is the table of token
--   buckets of internal/web/ratelimit.go, where each request takes the mutex and so is one step;
--   Web/Client is ClientIP of internal/web/clientip.go over a parameter for the package net.
-- Examples: the theorems applied to small data.
--
-- The binary search (sort.Search) has fuel for every element and so always finishes. The loop over
-- the batches of a slice has a round for each page, where one for each eight pages is enough. The
-- loop over the quotes of a query (splitPhrases) has fuel for every byte, and drops two in a
-- round. The walk over the tags has fuel for every seed and every tag of the limit, and a fetch
-- has its 21 attempts. All other loops are structural recursion.
--
-- Not modelled: bleve, where Cache/Query and Cache/Find take it as an argument; the encoding of
--   files and of addresses; HTTP, with its cookies and all headers but those of caching and
--   redirects; the templates, and the feed, statistics, about and saved pages; the parsers of HTML,
--   JSON and addresses, and regular expressions, which are parameters; the refresh
--   of the cache; logging and configuration.
pub mod Base
pub mod Money
pub mod Models
pub mod Storage
pub mod Fetcher
pub mod Crawl
pub mod Cache
pub mod Metrics
pub mod Web
pub mod Examples
