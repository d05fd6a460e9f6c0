-- ===== src/Tests/Data.antt =====
-- Two tables, three statements and three transactions; a scanner that finds nothing.
use mathlib.Core.List.{flat_map}
use sqlite_reconcile.Prelude.{
  ℕ, ◌+◌, String, true, false, none, some, List, [], ◌∷◌, map, pos, refl, refl,
}
use sqlite_reconcile.Utils.{Columns, ColumnMap, all_columns}
use sqlite_reconcile.Schema.{ConflictCheckContext}
use sqlite_reconcile.Metadata.{
  StatementMetadata, ParsedSql, update_expr, delete_expr, statement_kind_of, transaction_metadata,
}
use sqlite_reconcile.Models.{BranchName, ours, theirs, LoggedStatement, LoggedTransaction}
use sqlite_reconcile.Scan.{ExecutionScanner}
use sqlite_reconcile.Mergetool.State.{Environment, accept, unresolved_replay_safety_conflict}
use sqlite_reconcile.Mergetool.Quiet.{IsSmooth, AllSafe}
use sqlite_reconcile.Scan.Quiet.{Independent}
use sqlite_reconcile.StaticAnalysis.Keys.{transaction_implicit_insert_key_conflicts}
use sqlite_reconcile.StaticAnalysis.Overlaps.{
  transaction_write_write_overlap, transaction_write_read_overlap,
}
use sqlite_reconcile.Remaining.Plain.{IsPlain}

abbrev pub context : ConflictCheckContext
context = record {
  schema_cache = record {
    table_columns = [];
    primary_key_columns = [];
    key_column_sets = [];
    integer_primary_key_columns = [];
    foreign_key_edges = none;
    foreign_key_edges_by_parent = none;
    foreign_key_edges_by_child = none;
  };
  base_edges = [];
  base_integer_primary_key = λ table. none;
}

abbrev pub metadata_of : ParsedSql → String → Columns → ColumnMap → StatementMetadata
metadata_of parsed table columns reads = record {
  parsed_sql_text = parsed;
  compatible_sql = record { sql = "sql"; conflict_resolution = none; stripped_upsert = false };
  statement_kind = statement_kind_of parsed;
  conflict_resolution = none;
  has_reviewable_constraint_resolution = false;
  table_updated = some table;
  columns_updated = columns;
  tables_updated_to_columns_updated = (table, columns) ∷ [];
  tables_referenced_to_columns_referenced = reads;
  cascade_write_events = [];
  has_cascade_effects = false;
}

-- UPDATE a SET x = ..., UPDATE b SET y = (SELECT x FROM a), DELETE FROM a
abbrev pub update_a : StatementMetadata
update_a = metadata_of update_expr "a" ("x" ∷ []) []

abbrev pub update_b : StatementMetadata
update_b = metadata_of update_expr "b" ("y" ∷ []) (("a", "x" ∷ []) ∷ [])

abbrev pub delete_a : StatementMetadata
delete_a = metadata_of delete_expr "a" (all_columns ∷ []) []

abbrev pub statement : BranchName → ℕ → StatementMetadata → LoggedStatement
statement branch id m = record {
  branch = branch;
  branch_index = pos 0;
  transaction_id = id;
  committed_at = "2024-01-01";
  original_sql_text = "sql";
  to_replay_sql_text = "sql";
  is_replay_safe = true;
  replay_block_reason = none;
  metadata = m;
  replay_warnings = [];
  accepted_replay_warnings = [];
}

abbrev pub transaction_of : BranchName → ℕ → List StatementMetadata → LoggedTransaction
transaction_of branch id ms = record {
  branch = branch;
  branch_index = 0;
  transaction_id = id;
  committed_at = "2024-01-01";
  statements = map (statement branch id) ms;
  metadata = transaction_metadata (map (λ s. s.metadata) (map (statement branch id) ms));
}

abbrev pub our_head : LoggedTransaction
our_head = transaction_of ours 1 (update_a ∷ [])

abbrev pub our_second : LoggedTransaction
our_second = transaction_of ours 2 (delete_a ∷ [])

abbrev pub our_log : List LoggedTransaction
our_log = our_head ∷ our_second ∷ []

abbrev pub their_log : List LoggedTransaction
their_log = transaction_of theirs 1 (update_b ∷ update_a ∷ []) ∷ []

abbrev pub scanner : ExecutionScanner
scanner = record {
  State = ℕ;
  start = λ s. (s, []);
  check_next = λ s o t static. (s + 1, static);
  accept_next = λ s t result. (s, []);
  enable_kinds = λ s kinds. s;
  close = λ s. s;
}

abbrev pub environment : Environment
environment = record {
  scanner = scanner;
  apply_accepted_transaction = λ world t. (world, none);
  prompt_standalone = λ world conflict t. (world, []);
  prompt_pair = λ world conflict o t allow_accept. (world, accept);
}

-- The world counts the checks, and a check reports the static conflicts.
abbrev pub AnyWorld : ℕ → Type 0
AnyWorld world = Unit {0}

abbrev pub AnyTransaction : LoggedTransaction → Type 0
AnyTransaction t = Unit {0}

abbrev pub smooth : IsSmooth environment AnyWorld AnyTransaction
smooth = record {
  scanner_quiet = record {
    quiet_start = λ s h. (refl, tt);
    quiet_check = λ s o t static h k k' quiet. (quiet, tt);
  };
  apply_accepts = λ world t h k. (refl, tt);
  close_good = λ world h. tt;
}

abbrev pub apart : LoggedTransaction
apart = transaction_of theirs 1 (metadata_of update_expr "b" ("y" ∷ []) [] ∷ [])

pub our_head-Independent : Independent context our_head apart
unfolding transaction_implicit_insert_key_conflicts transaction_write_write_overlap
    transaction_write_read_overlap transaction_metadata flat_map
our_head-Independent = record {
  no_hidden_key = refl;
  no_write_write = refl;
  no_read_of_ours = refl;
  no_read_of_theirs = refl;
}

pub our_second-Independent : Independent context our_second apart
unfolding transaction_implicit_insert_key_conflicts transaction_write_write_overlap
    transaction_write_read_overlap transaction_metadata flat_map
our_second-Independent = record {
  no_hidden_key = refl;
  no_write_write = refl;
  no_read_of_ours = refl;
  no_read_of_theirs = refl;
}

unfoldable pub plain_update_a : IsPlain update_a
unfolding statement_kind_of
plain_update_a = record {
  kind_of = refl;
  table_of = refl;
  delete_all = λ e. cc;
  no_events = refl;
  no_cascade = refl;
}

unfoldable pub plain_update_b : IsPlain update_b
unfolding statement_kind_of
plain_update_b = record {
  kind_of = refl;
  table_of = refl;
  delete_all = λ e. cc;
  no_events = refl;
  no_cascade = refl;
}

unfoldable pub plain_delete_a : IsPlain delete_a
unfolding statement_kind_of
plain_delete_a = record {
  kind_of = refl;
  table_of = refl;
  delete_all = λ e. refl;
  no_events = refl;
  no_cascade = refl;
}

unfoldable pub all_safe_ours : AllSafe our_log
unfolding unresolved_replay_safety_conflict
all_safe_ours = (refl, (refl, tt))

unfoldable pub all_safe_theirs : AllSafe their_log
unfolding unresolved_replay_safety_conflict
all_safe_theirs = (refl, tt)

unfoldable pub all_safe_apart : AllSafe (apart ∷ [])
unfolding unresolved_replay_safety_conflict
all_safe_apart = (refl, tt)
