-- ===== src/Lib.antt =====
-- A model of the parts of LiuHe's MCP server (malong) that decide what happens to a caller's files and
-- tasks, with the theorems that make them correct.
--
-- The program. Tool calls pass a weighted semaphore (malong/semaphore.js). A tool that edits code takes
-- the lines of a file, finds the lines of a symbol, and applies one item per edit (applyBatchItem of
-- malong/write-runtime.js, with the functions of malong/write-edit.js); the result is validated by the
-- bracket check of the same file, and written unless the file has changed under the caller
-- (classifyConflict). Each write leaves a directory in a journal (malong/write-journal.js), from which a
-- crash is judged after a restart, a batch that died is taken back, and a caller undoes what was written;
-- writers of one file wait for its lock file (acquireLock).
-- Edits also come as SEARCH/REPLACE blocks (malong/patch-parser.js) and as
-- transactions (malong/tools/tool-edit-transaction/transaction-store.js). A side effect without a task
-- goes through invoke_capability, which leaves a record in a request ledger
-- (malong/tools/outlet-ledger.js) and answers a retry from it. A task of the entry tools lives in two
-- files, an append-only log of events and a snapshot (malong/tools/entry-store.js); handlers change it
-- through updateTaskCas. Its checks run as background jobs (malong/workflow/jobs.js);
-- malong/workflow/check-attempts.js pairs jobs and operations into attempts, and
-- malong/workflow/effective-state.js shows from them, from the evidence and from the task whether it is
-- done.
--
-- The files.
-- Base: what the modules share. Base/Tests has the Boolean tests and the conditional, Base/Lists list
--   functions on the native numbers, Base/Text strings as lists of UTF-16 code units with JavaScript's
--   trim, split and join, Base/Int the integers, Base/Sort sorting with what it keeps.
-- Semaphore: the class Semaphore. A method is a function of the state; a promise's resolution is a
--   value, a fired timer is on_timeout, the clock and the identity of a waiter are arguments.
--   Semaphore/Release has what one call does, Semaphore/Holders the interleavings of callers,
--   Semaphore/Leaving whom they serve.
-- Edit/Diff, Edit/Brackets, Edit/Apply, Edit/Batch: makeSimpleDiff, checkBracketBalance with
--   stripLiteralsForBracket (Edit/Brackets/Strip), the three line edits, applyBatchItem. Their child
--   modules have the proofs.
-- Write: what lets an edit through, in malong/write-runtime.js. Write/Conflict has classifyConflict
--   with CONFLICT_POLICY, Write/Validation the verdict on a validation.
-- Journal: the undo journal of malong/write-journal.js. Journal has its directories, createJournal and
--   updateJournalState; Journal/Recover recoverJournals; Journal/Partial the markers and the lock of
--   batches with recoverBatches; Journal/Undo and Journal/Batch restoreJournal for one write and for a
--   batch; Journal/Prune pruneJournals; Journal/Transactions recoverTransactions, with the proofs in
--   Journal/Settled and Journal/Standing. Journal/Crash has the write of writeSymbol step by step, with a crash behind any
--   of them, Journal/Group a strict batch of writeSymbols that dies, Journal/Compensate the rollback
--   of one that fails. The other modules have the proofs: Judged, Stages and Restarted on one write
--   that died, Counted, RolledBack, Grouped, TakenBack and Atomic on a batch that died, Stepped, Final,
--   Blocked and Whole on the undo of a batch, Undone and Careful on the undo of one write, Compensated
--   and Restored on the rollback, Overdue and Swept on pruning, and Put on files. The hash of a content,
--   the processes that run, dates, and what the host says of paths and locks are parameters; the files
--   of the workspace are a function from paths.
-- Locks: acquireLock of malong/write-runtime.js, as the steps of many callers on one lock file, each one
--   call of the file system. A caller that dies takes no more steps. Locks/Exclusive has the runs in
--   which no lock file gets old, Locks/Stolen what happens to one that did.
-- Patch: parseBlocks of malong/patch-parser.js, which reads SEARCH/REPLACE blocks from a text.
--   Patch/RoundTrip has the printer of the format, which is not in the source. Patch/Apply has
--   applyBlocks with its two matchers, Patch/Matched and Patch/Replaced the proofs on them.
-- Transaction: the edits of malong/tools/tool-edit-transaction/transaction-store.js.
--   Transaction/Span has applyLineSpan, Transaction/Simulate simulateEdits, Transaction/Warnings
--   bracketWarnings; their child modules have the proofs. The hash of a text is a parameter.
-- Symbols: buildParentMap and buildQualifiedName of malong/symbol-anchors.js.
-- Strings: collectStringRanges, isInString and stripStrings of malong/string-utils.js.
--   Strings/Literals has the proof on the ranges.
-- Ledger: the request ledger of malong/tools/outlet-ledger.js and replayOutlet of the
--   invoke_capability handler. Ledger/Files has the directory of records, Ledger/Prune pruneRecords and
--   ledgerRecord, Ledger/Claims the claims, Ledger/Kept the proofs on pruning. The hash that names a
--   record's file and the processes that are alive are parameters.
-- Evidence: the evidence of a task in malong/workflow/evidence.js. Evidence has currentEvidence and the
--   staleness of its entries, Evidence/Effective effectiveState, Evidence/Covers the proof that nothing
--   is lost by superseding. The hashes of files and directories are parameters.
-- Task: the task, its events and rebuildTask. Task/Disk has the two files with the crashes that they
--   can show and getTask, putTask, updateTaskCas; Task/Listing listTasks; Task/Mutation what handlers
--   pass to updateTaskCas, with the write bases of addWriteBasesToTask but for their sizes and times; Task/Faithful, Task/Recovery and Task/Cancel the theorems.
-- Jobs: one background job of malong/workflow/jobs.js, with what its process knows of it.
--   Jobs/Honest has the events that can befall a job, and the theorems. Jobs/Listing has the
--   directories of all jobs, Jobs/Shown and Jobs/Swept the proofs on listing and sweeping them.
-- Attempts: the attempts to check a task, of malong/workflow/check-attempts.js, from its operations and
--   its jobs. Attempts/Scope has what an attempt checks and which one settles a stopped one;
--   Attempts/Paired, Attempts/Covers, Attempts/Redone, Attempts/Places and Attempts/Repeats the proofs.
--   The reading of a date, the order of the host's language and lower case are parameters.
-- Projection: the state of a task that every outlet shows, of malong/workflow/effective-state.js, from
--   the models of Evidence and Attempts. Projection/Done has the proof.
-- Invoke: the call of a capability with side effects and a request id, without a task, in
--   malong/tools/tool-invoke-capability/handler.js, on the models of the ledger and its claims.
--   Invoke/Once has the proofs, Invoke/Stated and Ledger/Live what they need of outcomes and of
--   pruning. The capability's own handler, and what other processes do in the meantime, are arguments.
-- Tests: the theorems at concrete inputs, and runs of the functions.
--
-- Bounds and fuel. stripLiteralsForBracket is a loop that moves an index forward in several places; the
-- model runs it on fuel, one unit a round, and gives it the length of the text, which is proved enough
-- for every text. The walk of buildQualifiedName has one unit for each line up to its symbol's first,
-- which is proved enough for the map of parents that the source builds. The decimals of a number are
-- written on its value as fuel. All other loops are structural: the two nested loops of a patch's
-- matcher run over a number of starts and of ends that is known before. Sums, lengths, times and
-- revisions are natural numbers: JavaScript's numbers are exact far beyond any of them.
--
-- Not modelled: the file system beyond the contents of files (its operations do not fail), SQLite, the
-- parsing daemon, the protocol of the server, process handling, and the texts of error messages. Of a
-- task, the fields that no modelled operation reads are left out, and the time stamps of its events. A
-- field that may be absent or the empty string, which the code tests with `if (x)`, is a text that may
-- be empty. A call of JSON.parse on a line of the log gives the event that was written, or fails on a
-- torn line. A sort is by insertion, since JavaScript's is stable; what depends on the host (dates,
-- the order of its language, lower case beyond ASCII, processes that live, hashes) is a parameter.
pub mod Base
pub mod Semaphore
pub mod Edit
pub mod Write
pub mod Patch
pub mod Transaction
pub mod Symbols
pub mod Strings
pub mod Ledger
pub mod Evidence
pub mod Task
pub mod Jobs
pub mod Attempts
pub mod Projection
pub mod Invoke
pub mod Journal
pub mod Locks
pub mod Tests
