-- ===== src/Lib.antt =====
-- sqlite-reconcile: the merge of two SQLite databases that logged their statements.
--
-- The program has two halves. A connection wrapper (src/sqlite_wrapper/wrapper.py) logs the
-- statements of each committed transaction beside the data. The merge (src/merge) loads the logs
-- of two branches, and resolves them into one: it takes the heads of the two queues in turns, scans
-- each head against the other queue, asks the user about conflicts, and replays what is accepted.
--
-- The files, and the code that each is about:
--   Prelude and its children: numbers, lists, equality, dictionaries and text. A Python set is a
--     list in the order of insertion, a dict a list of pairs.
--   Utils: src/merge/utils.py, the sets of columns and the maps from tables to columns; `*` stands
--     for all columns. Utils/Overlap and Utils/Covers have the lemmas.
--   Cascade: src/merge/cascade_metadata.py and cascade_types.py. The walk over the foreign keys
--     is on fuel. Cascade/Edges reads the rows of PRAGMA foreign_key_list.
--   ConflictSyntax: src/sqlite_conflict_resolution.py, on lists of characters. Scanner is the walk
--     over the top-level words, Patterns the regular expressions, Rewrite what is stripped and
--     put back; Bounds, Literals, Matching and Restore are the proofs.
--   Metadata: src/merge/sql_metadata.py from the parsed statement on. Metadata/Aggregate has the
--     lemmas on the maps of a transaction.
--   Models, Schema: src/merge/models.py. A conflict result is a dictionary from kinds to lists.
--   StaticAnalysis: src/merge/static_analysis.py. Overlaps, Keys and Matching are the definitions,
--     Symmetric, Candidates and Kinds the proofs.
--   Remaining: src/merge/remaining_metadata.py. Counts, Index and Checks are the definitions; the
--     other children prove what the counters count and decide.
--   Wrapper: src/sqlite_wrapper/wrapper.py. Execute is `_execute_on`; Spec is a transaction with
--     nested savepoints, and Refinement relates the two.
--   LogMerge: src/merge/log_merge.py, the warnings and the grouping.
--   Scan: src/merge/conflict_detection.py, over an interface for the execution scanner.
--   Mergetool: src/merge/terminal_mergetool.py. State has the queues, Scanning the scan of a
--     head, Resolution what a decision of the user changes, Turn one turn of a branch, Loop the main
--     loop. Keeps, Runs, Invariant and Quiet are the proofs.
--   Effects: calls with state that may raise, with the rules by which what they leave alone
--     composes (Contained, Keeps).
--   Database: the SQLite connection as an interface: statements, queries, savepoints. Laws says what
--     is relied on of savepoints, Savepoints what a rollback takes back.
--   Replay: src/merge/accepted_replay.py and the failures of execution_based_analysis.py. Execute is
--     one statement, Advance a transaction on main and control, Accept the accepted replay; Plain,
--     Traceless, Advancing and Accepted are the proofs.
--   Probes: src/merge/execution_based_analysis.py, the queries that probe rows. Reads is
--     about the columns that the probe of an INSERT selects.
--   RemainingScan: src/merge/remaining_execution.py. Overlap and Reading compare rows, Refine and
--     Scanner are the scanner; Keeps, Overlapping, Probing, Refining, Endings, Steps and Trace are
--     the proofs.
--   BranchSafety: the check of each branch by itself, of src/merge/terminal_mergetool.py, which
--     replays its transactions on a copy of the base. Merge puts the checks before the main loop;
--     Safe, Rounds and Settled are proofs.
--   Tests: the theorems at concrete inputs.
--
-- Bounds and fuel. A turn of the mergetool goes on as long as the user edits, so it is on fuel,
-- and the main loop has as many rounds as there are transactions. In Mergetool/Quiet one round for
-- each turn is enough. The check of a branch asks about a transaction until it replays or is
-- dropped, which is on fuel too; BranchSafety/Rounds says when one round is enough. The numbers of
-- the source are Python's, without bounds; the counters stop at 0.
--
-- Not modelled: the SQL parser sqlglot, SQLite itself, the terminal and the file system. What the
-- program takes from them is a parameter: the facts of a parsed statement, the answer of SQLite to
-- a statement, the four operations of the execution scanner, the replay of an accepted transaction
-- and the two prompts. A statement that is asked for its table without having one, where the
-- source stops at an assertion, is read as naming the empty table. SQLite is taken to keep its
-- documented laws of savepoints for statements that are no transaction command and do not roll the
-- transaction back, as OR ROLLBACK, a table's ON CONFLICT ROLLBACK, RAISE(ROLLBACK) and some
-- errors of SQLite do. Wrapper/Execute splits the name of a savepoint off the SQL. The replay on
-- SQLite raises what SQLite raises, an IndexError, or sqlglot's ParseError where a strict form is
-- parsed again; in the model of the merge loop the execution scanner and the accepted replay are
-- an interface that does not raise. The caches of generated SQL are left out. The replay
-- preparation, the opening of the control database and the row merge are left out.
pub mod Prelude
pub mod Utils
pub mod Cascade
pub mod ConflictSyntax
pub mod Metadata
pub mod Models
pub mod Schema
pub mod StaticAnalysis
pub mod Remaining
pub mod Wrapper
pub mod LogMerge
pub mod Effects
pub mod Database
pub mod Replay
pub mod Probes
pub mod RemainingScan
pub mod Scan
pub mod Mergetool
pub mod BranchSafety
pub mod Tests
