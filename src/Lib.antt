-- ===== src/Lib.antt =====
-- runtime_contracts: the contracts that runtimes exchange, as a model of the Python package of the
-- same name.
--
-- A mission program declares the states, transitions and outcomes of a lifecycle. An investigation
-- event records one move under a pinned program; the ledger accepts, refuses and replays events.
-- Every contract has a canonical form, whose hash is its identity. Context plans and views say
-- what enters a model, verification results say what a check found, and the evidence store keeps
-- envelopes in an append-only log. An intent is what a user asked for, sealed once nothing open
-- would change it. An authority is delegated by narrowing it, and the broker of credentials grants
-- secrets that an authority permits. Evidence is bought from registered providers through a gate.
--
-- Which file models which code (paths below runtime_contracts/):
--   Canonical, Canonical/*    canonical.py: `canonicalize`, `decimal_string`, `content_hash`,
--                             `sorted_unique`
--   Visibility, Visibility/*  models/visibility.py
--   Verification              models/verification.py, and models/verification_ladder.py in
--                             Verification/Ladder
--   Mission, Mission/*        models/mission.py: records in Program, canonical and semantic forms in
--                             Forms, constructor checks in Construct, `state` to `require` in Lookup,
--                             `INVESTIGATION_PROGRAM` in Default
--   Investigation/*           models/investigation.py: the event in Event, `permitted_by` in
--                             Permission, `replay_states` in Replay
--   Ledger, Ledger/*          models/ledger.py: `submit` and routing in Submission, `replay_ledger`
--                             in Replay
--   Handle                    models/handle.py
--   Context, Context/*        models/context.py
--   Store, Store/*            store/envelope.py and store/file.py
--   Kpi, Kpi/*                models/kpi.py
--   Events, Events/*          models/events.py, and `as_runtime_event` of models/investigation.py
--   Security, Security/*      protocol/security.py: decisions, authority and its delegation
--   Credentials, Credentials/*  protocol/secrets.py and protocol/credentials.py: requests, grants and
--                             the gates
--   Broker, Broker/*          secrets_local/broker.py, and the environment store of
--                             secrets_local/store.py; Wallet is its abstract specification, and
--                             History says which call an active grant comes from
--   Intent, Intent/*          models/intent.py: records, queries and `seal` in Intent, forms and hashes
--                             in Form, `intent_from_json` in Restore, proposals and refusals in
--                             Proposal
--   Intelligence, Intelligence/*  protocol/intelligence.py, and protocol/intelligence_registry.py in
--                             Registry
--   Qa, Qa/*                  qa/integrity.py and qa/outcome.py
--   Prelude, Prelude/*        order and equality of texts and integers, stable sorting, exceptions
--   Examples, Examples/*      the theorems at concrete inputs
--
-- How the code is read. A dataclass is a record, an enum a data type, and a `__post_init__` a
-- function that returns or raises. An exception is a value: `Invalid` has a constructor for each
-- `ValueError` of the models, `Refusal` one for each `TransitionRefused`; the texts of the
-- messages are not kept. A loop is a recursion over its list, with its local variables as an
-- argument. A dict is an association list in insertion order, and a Python `sorted` is a stable
-- insertion sort. A text is compared by its code points, as Python does. Integers are unbounded.
--
-- Parameters. `Platform` holds Unicode NFC normalisation and the SHA-256 digest of the canonical
-- JSON text, of which nothing is assumed but where a theorem says so. `DecimalArithmetic` holds
-- the parser and the comparisons of Python's `decimal`, and `CostOrder` the comparison of two
-- decimals. `DecimalText` holds `str.strip` and the parser of a decimal text, `Calendar` the parser
-- and the printer of ISO times, `SecretStore` the reading of secrets, and `six_digits` is the
-- format `06d`; `Floats` holds the order and the sum of floats that are numbers, and a provider
-- of evidence is a record of functions; `show` is Python's `str` on what is not a text. An instant of the clock is an
-- argument of each call that reads it, in microseconds.
--
-- Bounds and fuel. `digits_of` counts down from n + 1, and a number n has at most n + 1 digits;
-- `strip_zeros` counts down from the coefficient, which is at least its number of digits. Decimals
-- are rounded to 28 digits, as the default context of Python does, but their exponents are not
-- bounded, where Python raises or rounds beyond 999999. Nothing else takes fuel.
--
-- Not modelled. The JSON text and its parser, the parsing of a decimal text, the `to_json` methods
-- that add hashes to forms (but the one of an intent), `causal_order`, `missing_sequences`, the
-- loading of a store from its file, `project`, which reads attributes of arbitrary objects, the
-- redaction by regular expressions, and the file store of secrets. A value of an intent is JSON
-- without floats. Of the rest of the package, the protocol records, most of quality assurance, the
-- world model and the command line have no model here.

pub mod Broker
pub mod Canonical
pub mod Context
pub mod Credentials
pub mod Events
pub mod Examples
pub mod Handle
pub mod Intelligence
pub mod Intent
pub mod Investigation
pub mod Kpi
pub mod Ledger
pub mod Mission
pub mod Prelude
pub mod Qa
pub mod Security
pub mod Store
pub mod Verification
pub mod Visibility
