-- ===== src/Lib.antt =====
-- Segnog, a memory service for agents: a verification library. Files of the program are named from
-- the root of the repository, where src/memory_service/ is left out of a name that stands below
-- it.
--
-- An observation is written to a session in DragonflyDB, which is filled from the graph database
-- when it is new, and the answer holds the entries that are found for it. A request leaves
-- episodes in the store, and an event for each on NATS. The curation worker gathers the events by
-- group and starts a curation of a group when it has enough of them or has waited too long. A
-- curation is a workflow, a set of stages with dependencies: the engine puts them in an order in
-- which each stage comes behind those it depends on, awaits the sync stages with a timeout each,
-- and hands the async stages to NATS, or to background tasks if there is no NATS client. Pipeline
-- workers take the messages of the async stages. The span aggregator measures how long the parts
-- of a request take. The ontology pipeline writes the entities of the text as nodes with a
-- summary, and the relations between them as edges. The stages that read entities and relations
-- out of the text bring their names in line with the vocabulary of Schema.org. What a search finds
-- is ranked by scores that blend its similarity with its age and its use.
--
-- The files:
--   - Workflow: workflows/base.py. `topological_order` is the depth-first search over the stages;
--     the state of its two sets and its list is the record Visits. Its recursion runs on fuel, one
--     more than there are stages, as a path without a cycle is no longer.
--   - Engine: workflows/engine.py. `execute` passes the record World on, which has the results,
--     the calls of handlers, the published messages and the background tasks. A handler is a
--     function from its payload to the time it takes and its outcome; `json.dumps` and JetStream
--     are arguments that may fail.
--   - Pipelines: the workflows that workflows/curation_workflow.py and
--     workflows/fast_ontology_workflow.py define.
--   - Ontology: ontology/schema_org.py. Load, with Json, is the loader; Tables has the constant
--     tables; Hierarchy, Excluded and Triples are about the class hierarchy, Inverses about
--     inverse and symmetric properties, Normalize about the canonical form of a class or a
--     property name. The two searches through the hierarchy run on fuel, two more than there are
--     links, as each link is followed once at most.
--   - Names: ontology/names.py.
--   - Curation: workers/curation_worker.py, the accumulator, the worker up to the start of a
--     curation, and in Trigger the curation as far as it changes the graph. Run has the runs of
--     the worker: its two loops and the tasks that they create, interleaved in any order.
--   - Workers: workers/pipeline_worker.py. An action is what it did and its value, or an
--     exception. Settle is about one message; Priority has the loop of the priority worker, over
--     the record Server, which stands for JetStream, with the laws IsFifo. It is about the
--     messages that wait, with none coming meanwhile.
--   - Scoring: storage/retrieval/scoring.py. The floating-point numbers are the record Numbers,
--     with the laws IsOrdered and IsExact where they are used; a division by zero, which raises,
--     is an outcome. `sort` puts the highest score first and leaves equal ones in their order.
--   - Spans: workers/span_aggregator.py. Times and their arithmetic are the record Times; the
--     stream is a sequence of batches. Pairs counts starts and recorded latencies, Match is about
--     one span.
--   - Exec: code that changes a state and may raise, and Hoare triples for it; Always and Returns
--     are the triples for a condition that is kept and for code that returns.
--   - Graph: the graph database, as lists of nodes and edges, of which any query may raise.
--     Hebbian is storage/retrieval/hebbian.py; Update, Queries, Weights, Bounds and Load carry its
--     proofs. Weights has the laws of arithmetic IsGrowing, which the bounds on weights need: they
--     are about numbers between nought and one, where doubles have them.
--   - Rem: workers/rem_worker.py, rem_sweep_worker.py, and the marking and compression of
--     storage/long_term/episode_store.py. Discovery, Consolidation, Decay and Cycle have the
--     definitions, named as the methods; Ready, Lifecycle, Settled and Sweeps the proofs. The
--     curation, the ontology pipelines and the embedding service are the record Outside, with the
--     laws IsQuiet (they leave the status of episodes) and IsUp (they answer).
--   - Sessions: the sessions of storage/short_term/dragonfly.py, as hashes of texts in a server of
--     which any command may raise, with Search for session_search; Hydration and Batches are the
--     hydration of services/observe.py. Slots is the semaphore of the background hydration, with
--     the steps of the runs that share it. Limits, Counts, Exact and Trips have the proofs. JSON
--     is a pair of functions, numpy's cosine a function.
--   - Memory: storage/short_term/memory.py, with the hash and the stream of
--     storage/short_term/dragonfly.py that it uses. Python's values are a type with the operations
--     of `json` as a record. Trips and Refines have the proofs.
--   - Entities: the nodes and edges of storage/long_term/ontology_store.py, with Pipeline for
--     intelligence/graph/ontology_pipeline.py and Summary for
--     intelligence/graph/update_ontology.py. The language model and the causal store are the
--     record Extraction. A window size of 0 raises, as `range` does. Keeps has the rules for
--     conditions that each query keeps; Linked, Clean, Relates, Windows and Errors have the
--     proofs.
--   - Observe: services/observe.py, one observation. What it searches outside the session is the
--     record Sources; tasks that are started with asyncio.create_task are listed, those of
--     intelligence/timing.py for spans too. Context has the entries, Paths the ways through the
--     call, Background the task that is started; Tracing, ReadOnly, Bounds and Cold have the
--     proofs.
--   - Prelude: what these share. Tests: concrete runs, and the theorems at concrete inputs.
--
-- A Python dictionary is an association list in the order of insertion, a set is a list. Times are
-- milliseconds. `str.lower` is a function that is given, since its tables are not of the program.
-- An exception is a value of the result.
--
-- Not modelled: what the handler makes of a curation, retrieval but for its scoring and its
-- Hebbian reinforcement, the listing of keys, the events of a group and the latencies of the
-- short-term memory, the enrichment of search results with entities, the ABOUT edges by
-- similarity, the extraction by language models, the stores but for what is named above, which
-- mostly hold queries that a graph server runs, the transports, the client, the configuration, and
-- all logging and telemetry.
pub mod Prelude
pub mod Workflow
pub mod Engine
pub mod Pipelines
pub mod Ontology
pub mod Names
pub mod Curation
pub mod Workers
pub mod Scoring
pub mod Spans
pub mod Exec
pub mod Graph
pub mod Rem
pub mod Sessions
pub mod Memory
pub mod Entities
pub mod Observe
pub mod Tests
