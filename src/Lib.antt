-- ===== src/Lib.antt =====
-- Astroix: a desktop parent application that edits registered Astro projects. The runtime holds the
-- authority: one session at a time is active on a project, browser documents are bound to that
-- session, each edit needs a grant of the session, and a switch of sessions fences and drains the
-- edits that were accepted before it revokes anything.
--
-- What is modelled, file by file (paths below packages/):
--   Session           protocol/src/session.ts, session-state.ts: the pair of epoch and generation
--                     with its comparison, and the categories of failure.
--   Fence, DrainReport  runtime/session-supervisor/fence/edit-fence.ts, drain-report.ts, and the
--                     outcomes of runtime/edit-authority/executor/write-outcomes.ts. The closure of
--                     createEditFence is the record EditFence; submit, fence, settle, onDeadline and
--                     resume are functions of it. A promise is the value that it was resolved with.
--                     Fence/Steps has the events, in any order that the code allows.
--   Clients           runtime/session-supervisor/clients/session-clients.ts and menu-actions.ts, with
--                     runtime/api/http/secret-compare.ts. The map of live bindings is an association
--                     list in the order of insertion; Clients/Caps has the histories of calls.
--   Hosts             runtime/api/http/host-capability.ts: the table of host capabilities. The cookie
--                     that carries a capability is not modelled.
--   CloseReport       runtime/project-plane/supervision/close-report.ts: the report of a closed run.
--   Supervisor        runtime/session-supervisor/staging/session-supervisor.ts. The variables of the
--                     closure are the record Supervision, with the client registry and the host
--                     capabilities that it shares; its listeners only observe. Supervisor/Attempt is
--                     activation-attempt.ts beside it, the closures of the attempts by generation.
--                     Supervisor/Steps has the histories: calls, settlements of the promises of runs,
--                     and what others do to the shared tables. They have the hypothesis BindsShown,
--                     that a document is bound to a session only while it is active or in flight:
--                     `bind` of session-clients.ts does not check it. Supervisor/Spec says which
--                     moves of the sessions are promised.
--   Bindings          runtime/api/http/client-bindings.ts: the bindings on the HTTP side.
--   DocumentAuthority runtime/src/client-authority/document-authority.ts: one authority over the two
--                     tables of client bindings, which it is given and shares with other parts.
--                     DocumentAuthority/Shared is about calls over any two tables;
--                     DocumentAuthority/Lockstep and Reach are about histories over tables that start
--                     empty and that only the authority changes.
--   Streams           runtime/sse/sse-hub.ts: the hub of event streams. The bytes of an event and the
--                     connections that are dead are arguments. Streams/History has its histories.
--   Receipts          runtime/session-supervisor/commit/switch-receipt.ts: the ledger of one-use
--                     receipts; a receipt is the number of those minted before it.
--   Revocation        runtime/session-supervisor/revocation/authority-revocation.ts: the ordered pass
--                     over streams, grants, clients, bindings and host capabilities. What others do
--                     between its steps is a function; theorems say what is asked of it.
--   Switch            runtime/session-supervisor/commit/switch-coordinator.ts over all of these:
--                     Switch has the preparations, Switch/Commit the consumption of a receipt.
--                     A call that awaits takes the states of the two moments.
--   Documents, Registry  runtime/registry: document.ts, project-registry.ts, store.ts, identity.ts. The
--                     three files are the record Disk, and a command gives the atomic writes that it
--                     makes, in order. The JSON and schema libraries are a parameter, and the bytes
--                     that are drawn for a key are an argument. The project summaries and the closing of the command
--                     queue are not modelled.
--   ProjectKey        runtime/registry/identity.ts: encodeProjectKey, whose while loop gets as many
--                     turns as there are bits, and the loop of allocateProjectKey over the draws, a list.
--                     Where it ends before a key is new, as where the schema throws, there is no key.
--   Tombstone         runtime/session-supervisor/tombstone: the record of an incomplete cleanup, over its
--                     one file. The answers of the lease probe are arguments.
--   World             What the grants use of Node: realpath, lstat, readFile as the answers that one
--                     operation gets, and node:path, sha256 and the UTF-8 codec as functions.
--   Grants            runtime/edit-authority/grants/grant-table.ts, canonical-bounds.ts,
--                     grant-token.ts and the schemas of protocol/src/edits.ts. An early return is a
--                     failure of the monad Fallible, a rejected promise that nothing catches is `thrown`.
--                     Grants/Live has the histories of calls. An issuance awaits the file system and
--                     then changes the table at one moment, which is its place in the history.
--   Plans             runtime/edit-authority/planning: write-plans.ts, entry-plans.ts, style-plans.ts,
--                     with the plan schema of protocol/src/edits.ts. Texts are UTF-16 units.
--   Executor          runtime/edit-authority/executor: final-validation.ts, commit.ts and the
--                     pipeline runOperation of write-executor.ts. A commit gives the calls that
--                     change the file system, in order, with what each answered.
--                     Executor/Queue is createWriteExecutor: execute, stop and pump.
--   WriteLoop         app-shell/src/editor/edit-drain/write-loop-state.ts: the reducer of the browser's
--                     write loop; WriteLoop/History has its runs, latest event first.
--   Pages             runtime/api/pagination/page-contract.ts: the page math, with the size of an
--                     envelope as a parameter.
--   Routes            core/src/route-resolver.ts: Routes has the patterns and Routes/Resolve both directions
--                     of the resolution. The URL class and the codec of components are a parameter.
--   Base              Lists, association lists and texts that these share. A text is a sequence of
--                     code points; the program compares UTF-16 units, which agree on well-formed text.
--
-- Two loops have fuel. The binary search of Pages has the width of its interval, which Pages/Search
-- shows to be enough; the writing of digits in ProjectKey has the bits that are left to write, of which
-- each turn takes five. Other loops are structural on the list they walk. The order of events is
-- not bounded. Random draws (capabilities, grant tokens) are arguments of the operations, and a
-- theorem that needs one to be new says so.
--
-- Not modelled: schemas of the wire beyond the rules named above, the processes of the executor,
-- the completion of a switch, HTTP, processes, and the user interface.
pub mod Base
pub mod Routes
pub mod Session
pub mod Documents
pub mod ProjectKey
pub mod Registry
pub mod World
pub mod Grants
pub mod DrainReport
pub mod Fence
pub mod Plans
pub mod Executor
pub mod WriteLoop
pub mod Pages
pub mod CloseReport
pub mod DocumentAuthority
pub mod Hosts
pub mod Bindings
pub mod Streams
pub mod Receipts
pub mod Revocation
pub mod Switch
pub mod Tombstone
pub mod Supervisor
pub mod Clients
