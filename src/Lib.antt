-- ===== src/Lib.antt =====
-- The merge steward of PatchRelay: a queue that lands pull requests on the main branch, one tick of a
-- reconciler at a time.
--
-- The program. Entries of the queue live in a store. A tick reads the active entries in the order of
-- the queue, splits them into those that may advance and those whose stack is blocked, checks each of
-- the first against GitHub, and moves it through its phases: a candidate commit is selected or built
-- on main or on the candidate of the entry before it, validated by the checks of exactly that commit,
-- and pushed to main as a fast-forward. An entry that fails is evicted with an incident; an entry that
-- was built on a candidate that is gone is sent back.
--
-- The files, with the sources under packages/merge-steward/src:
-- - Prelude passes on the library; Prelude/Tests, Prelude/Lists and Prelude/Texts hold Boolean tests,
--   lists and texts over the native numbers (JavaScript's array and string methods).
-- - Steward/Types: types.ts. Steward/Checks: check-policy.ts (evaluateCheckPolicy, coalesceReruns,
--   selectLatestRerun), with Checks/Gate, Checks/Rerun, Checks/Current,
--   Checks/Coalesced and Checks/Unnamed on what the policy answers and which runs count.
--   Steward/Classify: classify.ts. Steward/Downstream: invalidation.ts (selectDownstream).
--   Steward/Order and Steward/Schedule: queue-order.ts, with Order/Ends on the fuel of the loop,
--   Order/Stacks, Order/Once and Order/Placed on the places of the entries, and
--   Schedule/Parents on the parents of the entries that may advance. Steward/Policy: github-policy.ts.
-- - Steward/Store: memory-store.ts; Store/Mutate holds the mutations, Store/Query the readings
--   (Store/Query/First on getEntryByPR),
--   Store/Lookup the lemmas on the Map, Store/Sound and Store/Reach the well-formed stores,
--   Store/Traced what mutations leave alone.
-- - Steward/Exec: async functions that may throw, as functions from a state to a result and a state;
--   Exec/Keeps has one rule per way to build an action for the invariants of actions.
-- - Steward/Context: reconciler-core.ts and interfaces.ts. Git, GitHub, CI, the clock, random ids,
--   localeCompare, the digest of a policy and the redaction of tokens are fields of `Services`: the
--   answer to a call is any function of the calls made so far, and each call is logged with its answer.
-- - Steward/Reconcile: Evict (reconciler-evict.ts), Ancestry (open-pr-ancestry.ts), PostMerge
--   (reconciler-post-merge.ts), Sanitize (reconciler-sanitize.ts), Git, Build and Prepare
--   (reconciler-prepare.ts), Hold, Workspace, Accept and Validate (reconciler-validate.ts), Push, Land,
--   Reject and Merge (reconciler-merge.ts), Labels (reconciler-queue-labels.ts), Tick (reconciler.ts).
--   Stable and Safe carry a property of the world through every phase; Kept applies them. Landing says
--   what stands behind a push to main, from the calls in the history; Exec/Yields has the rules for what
--   an action answers.
-- - Steward/Admission: Queue, Admit and Change (service-queue.ts) and Webhook (processWebhookEvent of
--   webhook-handler.ts); Safe carries a property of the world through them, Outcome says what tryAdmit
--   does, Alone and Position what an admission keeps of the queue.
-- - Steward/Service: service.ts with the label recovery and the body of a tick of service-runtime.ts;
--   Kept joins admission and reconciler. Service/Runtime: the state of runTick and its watchdog, as a
--   step relation with the suspended call of runTick beside the state; Runtime/Tidy has its invariant.
-- - Of the two services beside the merge steward: Quill/Semaphore, Quill/PendingChecks and
--   Quill/Publication (packages/review-quill/src: review-semaphore.ts, pending-check-classifier.ts,
--   review-publication-policy.ts), and Harness/RunBudgets (src/run-budgets.ts).
-- - The modules named Tests hold runs on small inputs.
--
-- Conventions. A function keeps its name in snake_case. A number is a natural number; `null` and
-- `undefined` are `none`; a patch tells a field that is set to null from one that is left out. A Map is
-- an association list in insertion order, a Set a list. Events keep the entry, the action and the
-- detail. Lower-casing is that of ASCII. A throw ends an action and keeps what was written before it.
--
-- Bounds and fuel. The while loop of orderActiveQueue runs on fuel, one more than the number of entries:
-- each round takes one entry off the ready list, and an entry comes onto it at the start or when its
-- count of parents falls from 1 to 0. deletePrBranchAfterGitHubMarksMerged polls six times, as its default says. All
-- other loops are over lists.
--
-- The service serves one request to its end before the next; the calls of a request that are not awaited
-- are made where the source makes them. RegExp (which may throw), Date.parse on the program's own timestamps and the
-- unique constraint of the database are parameters (`Settings`).
--
-- Not modelled: the SQLite store, the adapters for git, GitHub and child processes, the signature and the
-- JSON of a webhook, the timers themselves, the command line, HTTP, the watch view, configuration and
-- the simulator of the merge steward; the readings of the store that serve displays; the pause between
-- two polls; of the PatchRelay harness (src) and of packages/review-quill, which are separate services,
-- all but the files named above.
pub mod Prelude
pub mod Steward
pub mod Quill
pub mod Harness
