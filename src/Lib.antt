-- ===== src/Lib.antt =====
-- The reconciliation engine of src/reconciliation and the application around it: two canonical
-- trees, a source and a target, are matched node by node, aligned region by region and described by
-- structural operations (core); the result is read as localization issues with recommendations,
-- reviewed, reported, and run as a job (application, reporting, infrastructure/jobs).
--
-- The stages run in the order of `DefaultReconciliationEngine.reconcile` (core/engine.py):
-- validate -> limits -> normalize -> evidence -> match -> align -> classify -> root cause -> suppress.
-- Each hands an immutable record to the next, so a stage is a function into `Result` (Errors.antt),
-- whose `raise` is the exception that the code raises.
--
--   Base, Base/*            lists, Python's dict and sorted, texts
--   Runtime, Runtime/*      Python's float and repr of leaves, a parameter; int
--   Errors                  core/errors.py, and the calculus of calls that may raise
--   Tree, Tree/*            contracts/tree.py and validation/tree_validator.py
--   Contracts, Contracts/*  contracts/{profiles,evidence,matches,alignment,operations,causality,suppression}.py
--   Evidence, Evidence/*    evidence/extractor.py
--   Matching, Matching/*    matching/{matcher,scorer,constraints,confidence}.py
--   Alignment, Alignment/*  alignment/{aligner,lcs}.py
--   Classification/*        classification/{registry,classifier}.py and classifiers/
--   Causality               causality/{objective,analyzer}.py
--   ProfileValidation/*     validation/profile_validator.py
--   Limits                  metrics/calculator.py
--   Normalization/*         normalization/service.py
--   Suppression/*           suppression/{service,independent_defect}.py
--   Engine/*                engine.py, contracts/{commands,diagnostics,metrics,results}.py
--   Localization, Localization/*
--                           application/services/{localization_validation,recommendations,locale_policy,
--                           translation_state}.py and application/contracts/{localization,recommendations,
--                           policy,common}.py
--   Reviews, Reviews/*      application/{contracts/reviews,services/reviewer_decisions}.py
--   Reporting, Reporting/*  reporting/{contracts,rows}.py
--   Orchestration, Orchestration/*
--                           application/orchestration/{comparison_job,ccms_comparison,registry}.py,
--                           application/contracts/jobs.py and infrastructure/jobs/{executor,in_memory}.py
--   Delivery, Delivery/*    delivery/cli/exit_codes.py
--   Redaction, Redaction/*  infrastructure/logging.py
--   Tests/*                 runs on small trees, and each theorem at a concrete input
--
-- A dict is an association list in insertion order; a set is a list of which only membership
-- counts. `sorted` is an insertion sort, which is stable as Python's is. A pydantic validator is a
-- function that returns its argument or raises; what is constructed in the code is checked there.
--
-- Fuel: the walk along parent links has one step more than the tree has nodes, and the two loops
-- over a stack (tree depth, descendants) one step for each node of the tree. A loop whose fuel is
-- spent raises `fuel_spent`, an error of the model's own.
--
-- A job composes these parts: the adapter of the registered profile reads both documents, the
-- engine reconciles them, the localization layer interprets the result, which is saved and rendered
-- (`run_comparison`). Adapters, the repository, the artifact store, the renderers and the length of an
-- encoded text are parameters of a job (`Environment`); a port returns a value, raises its own error, or
-- raises another exception, and so may a renderer.
-- The threaded executor is a relation between its states: a step is a critical section of its lock,
-- and the steps of different jobs come in any order. The identifiers `issue-3` and `repair-3` are numbers.
--
-- Not modelled: parsers of XML, DITA, JSON and YAML, the command line (its exit code aside) and
-- the HTTP service, SQLite and files, the text of CSV, JSON and HTML reports, profile files, pricing, the
-- emission of log events (their redaction aside) and benchmarks;
-- durations, messages of exceptions, and version strings; the cycle check of a causal graph,
-- since the analyzer builds no links.
pub mod Base
pub mod Runtime
pub mod Errors
pub mod Tree
pub mod Contracts
pub mod Evidence
pub mod Matching
pub mod Alignment
pub mod Classification
pub mod Causality
pub mod ProfileValidation
pub mod Limits
pub mod Localization
pub mod Reviews
pub mod Reporting
pub mod Orchestration
pub mod Delivery
pub mod Redaction
pub mod Normalization
pub mod Suppression
pub mod Engine
pub mod Tests
