-- ===== src/Lib.antt =====
-- Vectural indexes the code of an estate of services and answers questions about it. This library
-- models the deterministic core of its Python backend.
--
-- The parts and how they interact:
--  - backend/quota: one monthly pool of tokens, with a share that is ring-fenced for serving. The
--    governor approves indexing against the tranches that are unlocked, and the accountant records
--    what the router reports. Quota.Ledger, Quota.Bucket, Quota.Governor and Quota.BinPack.
--  - backend/llm: the router is the only way to a model. It builds a request, retries, accounts and
--    parses. Llm.Base, Llm.Failures (backend/failures.py), Llm.Catalog (catalog.py and config.py),
--    Llm.Router.
--  - backend/summarise/driver.py: one pass over the files of a service asks the governor, calls the
--    router and writes the file ledger. Summarise.Ledger and Summarise.Driver.
--  - backend/orchestration: the workflow that goes through the services, parks and continues.
--    Orchestration.State and Orchestration.Workflow.
--  - backend/graph: the knowledge graph in memory, its two adjacency indices, and the questions that
--    it answers without a model. Domain.Graph, Graph.Index, Graph.Detach, Graph.Store, Graph.Queries.
--  - backend/flows: narratives of flows across services, written by the router, reviewed by an
--    architect, served as evidence while approved. Flows.Identify finds their candidates in the
--    graph. Flows.Models, Flows.Generate, Flows.Service.
--  - backend/answer: a question goes through the cache, the planner, which calls the router and reads
--    the graph, retrieval, a draft by the router, and two gates, the citations and a judge. Answer.Cache,
--    Answer.Plan, Answer.Complexity, Answer.Analytics and Answer.Service, whose Stages are the path;
--    Citations is the first gate (citations.py).
--  - backend/freshness: which services are stale (state.py, Freshness), the lines of a diff (diff.py,
--    Freshness.Diff), and what a diff changes in the index, the graph, the ledger, the stale marks
--    and the narratives (reindex.py, Freshness.Reindex); a sweep deletes what is no longer on
--    disk (reconcile.py, Freshness.Reconcile).
--  - backend/retrieval/inmemory.py: the in-memory search index and its statistics. Retrieval.
--  - backend/api/coverage.py: how far each service is indexed. Coverage.
--  - backend/ingestion/chunker.py: a file cut into chunks. Chunker.Rows has the drafts in row space,
--    Chunker.Tree the definitions of a syntax tree, Chunker.Emit the assembly.
-- A function of the source has a function of the same name, a leading underscore left out, and a
-- method takes its object last or as its state. The modules below a component hold its theorems.
-- Tests holds runs on concrete inputs.
--
-- How the code is modelled: an object that is mutated is passed on as a record. An exception is a
-- value of Llm.Failures.Result. A dict is an association list in insertion order (Prelude.Dict). A
-- date is its ordinal and a moment a number; tokens and rows are natural numbers, which Python's
-- integers are there. `float` is a parameter, with the laws of IEEE arithmetic that a theorem needs
-- (Prelude.Float); values that are not numbers are left out. SHA-256, JSON decoding, the validation
-- of a model's JSON, the parser, the decoding of bytes, the clients and the activities are
-- parameters; so are, on the answer path, retrieval, the texts of the prompts, the gathering of
-- context, the Cypher validator and the embedder; on the path of a diff, the
-- manifest, the disk, ingestion and the search index; and in a sweep the walk of the estate.
--
-- Bounds and fuel: `call_loop` has one unit of fuel more than the policy's attempts, which is
-- enough, since an attempt that is not followed by another ends it. `drive` takes its fuel from the
-- caller; more than there are services pending is enough. `window_loop` and `residue_loop` have the
-- number of rows. The search over services has one unit for its start and one for every key that the
-- index lists, since each turn takes one service off the queue and each service enters it once.
--
-- Not modelled: the HTTP API and start-up, the database, search, graph and Temporal adapters, the
-- clients' HTTP calls, logs and metrics; nor prompt texts, the ranking of retrieval, the
-- building of the graph and the higher summary tiers.
pub mod Retrieval
pub mod Graph
pub mod Answer
pub mod Prelude
pub mod Domain
pub mod Llm
pub mod Quota
pub mod Orchestration
pub mod Flows
pub mod Chunker
pub mod Summarise
pub mod Citations
pub mod Freshness
pub mod Coverage
pub mod Tests
