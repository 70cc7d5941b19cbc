-- ===== src/Lib.antt =====
-- A model of the parts of MARKETview that keep state or decide what may be shown: the cache of market
-- data, and the research side, which cuts filings into chunks, stores them under immutable
-- generations, publishes one generation of a filing at a time, and answers from evidence that passes
-- the safety tests and that its claims quote.
--
-- How the parts meet. The chunker cuts a filing's text; the chunks of one filing, with their vectors,
-- are a generation, which a manifest describes. The vector store stages a generation and verifies it;
-- the control plane leases the filing, records the generation's lifecycle, and publishes a verified
-- one in the place of the active one. A question is answered from hits of active generations that the
-- classification accepts. The research service drives both sides: it ingests a document through the
-- plane and the store, and answers a question through its ports. Calls carry a deadline. The control records and the retry ledger are what a
-- remote control plane stores as JSON. The cache holds market data, the daily quota and the refresh
-- locks of the market data service.
--
-- What models what, file by file:
-- Base and its children: numbers, lists, dictionaries, text as code points, exceptions as results,
--   and equality as a test, which is Python's `==` on the modelled values.
-- Cache.Memory: MemoryCache of app/cache/memory.py and CacheEntry of app/cache/base.py. Each method
--   is a function of the state and the clock's reading; the methods hold one mutex throughout, so a
--   run is a list of calls (Cache.Memory.Calls).
-- Research.Deadline: RequestDeadline of app/research/deadline.py.
-- Research.Python: the parts of the standard library that the records use; the patterns that have
--   one class for each character are written out.
-- Research.Domain and its Outcome: EmbeddingDescriptor, CorpusDescriptor, GenerationManifest, GenerationVerification
--   and GenerationVerificationOutcome of app/research/domain.py. `make_manifest` and its like are the
--   `__post_init__` methods, as functions from the raw fields.
-- Research.Json, Research.Records and its Codec and Decode: the records of app/research/control.py;
--   `stage_value` is the object that `to_json` dumps and `stage_from_json` is `from_json`, and so on.
-- Research.Retry: the snapshots and the second claim of app/research/control.py.
-- Research.Plane and its Cleanup: InMemoryResearchControlPlane of app/research/memory.py, one function for a method,
--   over an action on the plane that can raise. A raise keeps what was written before it.
-- Research.Vectors: InMemoryVectorStore of app/research/memory.py, and GenerationInspection of
--   app/research/ports.py.
-- Research.Retrieval: classify_safe_hits of app/research/retrieval.py.
-- Research.Chunker: DeterministicSectionChunker of app/research/chunker.py.
-- Research.Evidence and Research.Answer: filing references, what is discovered and evidence chunks with their identities,
--   and quotes, claims, citations and answers of app/research/domain.py.
-- Research.Grounding: the tokens and the support of claims in app/research/service.py.
-- Research.Service: ResearchCoreService of app/research/service.py. Run is the state of one ingestion
--   and its steps, which can raise and be handled; Prepare, Steps and Ingest follow `_ingest_impl` from
--   the document to the release of the lease. Keeps and Ensures are the rules of its proofs. Query is
--   `query_research`, which leaves the sequence of its calls of the ports.
-- Research.Facade: EnabledResearchService of app/services/research.py over a port for the cost control.
--   Reserve authorizes and releases a reservation, and Query commits it before the paid calls.
-- Validation: app/validation.py.
-- Market: MarketDataService of app/services/market_data.py. CachePort is the interface of the cache,
--   and Market.Memory fills it with MemoryCache; Cached is `_cached` and Pages the pages of a history.
-- Cache.Tests, Market.Tests and Research.Tests: runs on concrete inputs.
--
-- Choices. A clock's reading is an argument, a whole number of seconds or ticks. A score is a whole
-- number of millionths. Text is a list of code points. A count that a constructor tests for being
-- negative is a natural number, since a negative one is refused before it is used; a TTL, a window and
-- a limit are integers, with their tests. Tests of a value's Python type have no counterpart, since
-- the model is typed. Parameters stand for what is not in the repository: case mapping, white space,
-- decimal digits and SHA-256 (with the laws of Research.Python.Stripping), the JSON library, the
-- matches of the compiled patterns of the chunker, the prompt-injection test, the two searches for a
-- personal request, `str.casefold`, `str.split` and Unicode categories, and the test of a source's
-- address. The ports of the service (chunker, embedder, search, generator, provider) are what they
-- answer. An ingestion is one call: what other clients do to the plane meanwhile is a run of other
-- calls, which the soundness of the plane covers. What other processes do to the cache while a call
-- waits for a lock is a parameter.
--
-- Fuel. The loop over a section's tokens has fuel for one window more than the tokens, and each step
-- moves the start on, because the overlap is smaller than the maximum. The decimal digits of a number
-- have fuel for the digits that a number may have. The loop that waits for a lock counts down its
-- attempts, as in the source. Following the pages of a history has fuel for one page more than the
-- items that are left. No other definition has fuel.
--
-- Left out: similarity search in floats, the remote Redis and vector providers, HTTP, settings, the
-- web application and the page. The ingestion runner and the symbol search are not
-- modelled.
pub mod Base
pub mod Cache
pub mod Research
pub mod Validation
pub mod Market
