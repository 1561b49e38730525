-- ===== src/Lib.antt =====
-- Obrasignal: a procurement radar sold by subscription, a claims product with its own billing
-- projection, and the Factory Cloud, which orchestrates the work on the applications. This library
-- models the parts that keep money, access and work consistent.
--
-- Parts and files
--   Base and its children: tests on numbers, lists, text as Python has it, decoded JSON (without
--     floats), signed integers, and results that may be an exception.
--   Billing, Billing/*: vertical_apps/industrial_claims/billing_state.py. `apply_verified_event` is
--     `parse` (the checks of the event) and `transact` (the transaction on the tables of rows and
--     receipts), which is in Projection; `judge` is what stands under `if current:`.
--   Evaluation, Evaluation/*: evaluation_policy.py. Each function keeps its name; Access has the
--     access state and the summary, Metrics the figures of an evaluation.
--   Subscription, Subscription/*: account_registry.py. The webhook (`billing_webhook`) updates a
--     subscription, which marks the evaluation as paid or churned; the gate (`billing_guard`) reads
--     `subscription_state`, which falls back on the access of the evaluation.
--   Claims/Fields, Claims/Stripped: the checks of texts that the stores of the claims product share.
--   Claims/Cases, Claims/Cases/*: vertical_apps/industrial_claims/case_store.py. `_validate`, `_put` and
--     `_values` are `validate`, `put_row` and `values`.
--   Claims/Revisions, Claims/Revisions/*: vertical_apps/industrial_claims/revision_store.py. `_validated`
--     and `_validate_lineage` lose their underscore; `_register_initial` is `register_row` and
--     `_supersede` is `supersede_rows`. Chains and Histories say what a table stands for: a history of
--     finding ids, newest first, for each tenant and fingerprint. Backfill reads the rows of
--     Claims/Cases.
--   Claims/Proofs, Claims/Proofs/*: vertical_apps/industrial_claims/proof_store.py, with `sha256_hex` of
--     proof.py. `sealed` builds the row of `append_event`, and `verification` is the rest of
--     `verify_chain` after its checks of the two texts.
--   Claims/Recovery: vertical_apps/industrial_claims/leakage_reconciliation.py; Claims/Recovery/Store:
--     recovery_reconciliation_store.py, which keeps its snapshots; Claims/Recovery/Portfolio:
--     recovery_portfolio.py, which adds up the stored records.
--   FactoryCloud/StateStore, StateStore/Calls, Lease: factory_cloud/state_store.py, the tables app_state
--     and execution_history, and the table orchestrator_lease.
--   FactoryCloud/WorkQueue: factory_cloud/work_queue.py, the table worker_jobs, and the adapter that
--     hands a request to a worker.
--   FactoryCloud/Adapters: factory_cloud/adapters.py.
--   FactoryCloud/Priority: factory_cloud/portfolio_priority.py.
--   FactoryCloud/Capabilities: factory_cloud/capabilities.py.
--   FactoryCloud/Orchestrator: factory_cloud/orchestrator.py. A cycle (`run_cycle`) takes the app of
--     the highest score that is due (`choose_next`), lets its adapter execute the task
--     (`execute_one`), checks the result (`validated_result`) and writes the row
--     (`checkpoint_result`) through the state store.
--   FactoryCloud/Assurance: factory_cloud/assurance_kernel.py.
--   Tests in each folder: runs of the definitions, and the theorems at concrete inputs.
--
-- State and time. A table is a list of rows in the order of insertion; a call that is one transaction
-- is one function, so a sequence of calls is an interleaving of the processes. `issue_certificate` of
-- the proof ledger has two transactions, and takes the ledger of each. Instants and leases
-- are in microseconds, and the clock is an argument. A stored time is a Stamp: an instant, or a text
-- that `datetime.fromisoformat` refuses; a time without a zone, whose comparison raises TypeError, is
-- left out. Rows of equal `created_at` stay in the order of insertion, where SQLite promises none.
--
-- Parameters. `repr` (the text of a list or an object), `fingerprint` (the digest of an event),
-- `int_of_text` (`int` on a text), `known` (which apps have a row), `sha256` and `payload_hash`,
-- `canonical`, `dumps` and `loads` (JSON as text, and its reader), `utc_of` (an ISO text in UTC),
-- `decimal_of` and `text_of` (a decimal as text), `upper` and `lower`, `iso` (an instant as text),
-- UUIDs, the injected adapters, and the verdict on the signature of a webhook.
--
-- Amounts of a recovery ledger are numbers of units of one last place that all of them share; a stored
-- snapshot is the record that was stored, as the store reads only what it wrote. The sum and the
-- difference of two Decimals, which are rounded to the 28 digits of the default context, are the
-- parameters `plus` and `minus`; the theorems use of them that a result of 28 digits at most is exact.
--
-- Bounds. `walk`, the loop over the predecessors of a revision, has a fuel of one more than the number
-- of the revision: each round goes to a revision with the number below, and stops at the first. The loop
-- of `run_cycle` recurses on what `max_dispatches` leaves, as each round of it adds one dispatch; the
-- fuel n + 1 of `decimal` is more than the digits of n. Every other recursion is on a list or a text.
--
-- Not modelled: the connectors to the national procurement sources and their runtimes, the web
-- applications and the mobile client, which are input and output; the migrations of the schemas;
-- the request to RevenueCat; the trust services of the claims product; the ranking of
-- opportunities, whose scores are floats.
pub mod Base
pub mod Billing
pub mod Claims
pub mod Evaluation
pub mod FactoryCloud
pub mod Subscription
