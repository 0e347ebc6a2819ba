-- ===== src/Tests.antt =====
-- Tests and witnesses: the theorems at concrete inputs.
mod Observe
mod Entities
mod Workflow
mod Ontology
mod Names
mod Curation
mod Workers
mod Scoring
mod Spans
mod Rem
mod Sessions
mod Memory
mod Numbers
