-- ===== src/Lib.antt =====
-- Verification of the execution engine (the Python package kairos_execution): a model of its
-- deterministic core in the order of its parts, with theorems about every operation modelled.
--
-- The parts and how they interact. The isolated simulator (kairos_execution/simulation) is a
-- controller over a durable repository, a bridge that converts contract floats, and a pure kernel:
-- `simulate_ioc` takes an IOC command, a book frame, assumptions and a liquidity state, and returns an
-- outcome and the next state, which the controller stores with a receipt and a lifecycle event of the
-- trade. Closed bars lead the controller to exit commands; a terminal trade gets one result. Beside the
-- simulator stand the order state machine (kairos_execution/state_machine.py) and the token bucket
-- (kairos_execution/ratelimit.py) of the live engine, and the authority for production orders
-- (kairos_execution/signing_authorization.py and production_*.py): requests are verified against
-- evidence in a database, whose triggers test again what the writers in Python have tested.
--
-- Files and code.
--   Common and its children: shared names, Boolean tests, lists, integers, results of code that raises.
--   Simulation/Models: the records of simulation/models.py; Models/Valid and Models/Coherent: their
--     validators, as Boolean tests; Models/Facts: the same read as statements.
--   Simulation/Depth: the dictionary `consumed` of `_walk` and its sorted copy.
--   Simulation/Walk: `_walk` of simulation/fill_model.py (`walk_levels` is its loop).
--   Simulation/Issues: `_frame_issue` and the first tests of `_evaluate`.
--   Simulation/Fill: `_evaluate` (`evaluate`, `concluded`, `walked`, `settle`) and `simulate_ioc`.
--   Simulation/Session: sequences of calls on one state; Ledger, what they keep; Final, that an outcome
--     is final along them.
--   Simulation/Tests: runs at concrete inputs, and the theorems applied to them.
--   Controller: the lifecycle of one trade in simulation/controller.py (`_event_for_receipt`, the sums and
--     lists over a journal) and `command_receipt` of simulation/bridge.py.
--   Controller/Bars: `process_closed_bar`, `_exit_command`, `_adverse_exit_cap`, `_mark_unresolved`.
--   Controller/Results: `_fill_totals` and the tests of `_ensure_terminal_result`.
--   Controller/Store: what the lifecycle relies on in the repository of kairos_persistence.
--   Controller/Balance, Triggers, Evidence: lemmas on events, bars and receipts.
--   Controller/Lifecycle, Exits, Settled: the stores that a trade reaches, its exits and its result;
--     Progress: what follows any store.
--   Controller/Tests: a store in memory, and the theorems at one trade.
--   Orders: `OrderState`, `_ALLOWED` and the EVEDEX order ids of state_machine.py; Orders/Transitions and
--     Orders/Ids: their theorems; Orders/Tests: runs.
--   Production: the chain of authority for a production order. A signing request is typed and verified
--     against evidence, its entry reserves capital of the account in the database, is verified again and
--     is signed and dispatched under one-use claims; a terminal receipt releases the capital.
--   Production/Records: the records of signing_authorization.py, production_readiness.py, managed_signer.py.
--   Production/Messages: `_typed_message` of managed_signer.py with the schemas of crypto.py, and the two
--     notionals of an entry message.
--   Production/Authorization: `_validate_scope` and the tests of `_verify_evidence` with those of
--     production_readiness.py on the owner's arm; Production/Verification: `_verify_evidence`,
--     `_verify_exit`, with children Accepted, Entries and Exits for their theorems.
--   Production/Database: the tables of production_state.py, production_claims.py, production_accounting.py
--     and production_reconciliation.py, as lists of rows; Rows: lemmas on selections and aggregates.
--   Production/Decimal: the default context of Python's `decimal`, by which `reserve_entry_async` rounds.
--   Production/Limits: `_reservation_totals_query` and the limits, as Python and as the trigger
--     compute them; Production/Guard: the trigger `enforce_risk_reservation`; Production/Lineage and
--     Production/Reserve: `reserve_entry_async`, with children for its theorems.
--   Production/Accounting, Production/Release: `terminal_economics`, `verify_terminal_receipt`, the
--     trigger `enforce_release` and `accept_terminal_receipt` of production_accounting.py, with children
--     for their theorems.
--   Production/Operator: `append_operator_observation_async` and its trigger.
--   Production/Claims: `claim`, `finish_signing_async`, `finish_wire_async`, `load_claim`.
--   Production/Flow: `_resolve_verify_async` and `verify_effect_async`.
--   Production/Tests: one account with an entry and an exit, and the theorems applied to it.
--   RateLimit: the token bucket of ratelimit.py; RateLimit/Bound: its rate and its bursts; RateLimit/Tests.
--
-- Not modelled, and why. The floats of contracts stand for the decimals they are written as, so their
-- rounding is not modelled; nor are the average prices and the profit of a result, which are quotients
-- of the sums that are. The controller's calls of its repository, its admission checks and its recovery
-- are not modelled; a step of the lifecycle is a completion of a command or a closed bar, and
-- `process_closed_bar` stands for the code from its clock test to the exit that it submits, behind the
-- checks of the bar, the timestamp and the journal's lineage. The token bucket's refill period is
-- positive (at zero the source raises ZeroDivisionError), and its floats are not rounded. Ids of
-- venues other than EVEDEX are a digest of hashlib. Of the production modules, roles, privileges,
-- advisory locks, provisioning and timeouts are not modelled: the transactions of an account are a
-- sequence, each either committed or rolled back; nor is the resolution of evidence from the tables,
-- whose result is an argument, and the signature, which is a parameter. The engines, adapters, the other
-- production modules and the operator tools of the package are input and output for the most part.
--
-- Representation. A `Decimal` is a natural number of its smallest unit; the scales, and why the 96
-- digits of the source's context round nothing but an average price, stand in Simulation/Models.
-- Timestamps are natural numbers, with the bound of the field where the source states one.
-- Identifiers and SHA-256 digests are only compared, so they are numbers, and the digest functions of
-- hashlib over canonical JSON are a parameter (`Fingerprints`, `Hashes`) of which nothing is assumed.
-- In the production modules an amount counts 10^-16 USD. There the source computes in the default
-- context of `decimal`, 28 digits: `is_within` and `current_limits` round by it, while the notional of a
-- message and the economics of a receipt are exact, as they are as long as they fit in 28 digits. What
-- the database computes of `numeric` is exact: so is PostgreSQL, but for a division whose quotient has
-- more decimals than its scale (`expected_notional`).
-- Code that raises returns `Result`: `ok` or the exception. Every loop is a structural
-- recursion; only `last_place` of Production/Decimal takes fuel, the value that it rounds, and
-- `last_place-fits` shows that to be enough.
pub mod Common
pub mod Controller
pub mod Orders
pub mod Production
pub mod RateLimit
pub mod Simulation
