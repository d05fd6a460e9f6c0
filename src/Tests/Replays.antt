-- ===== src/Tests/Replays.antt =====
-- A database that is the list of the statements it has run, with a stack of savepoints, and the
-- replay on it.
use mathlib.Core.List.{flat_map}
use mathlib.Core.List.{flat_map}
use sqlite_reconcile.Prelude.{
  String, ◌≡◌, refl, ap, inl, Bool, true, false, none, some, List, [], ◌∷◌, ◌++◌, flat_map,
  if◌then◌else◌, string_eq, nat_eq, ◌==◌, list_eq, concat,
}
use sqlite_reconcile.Effects.{M, sqlite_error, ok, raised}
use sqlite_reconcile.Effects.Contained.{Leaves, Contained}
use sqlite_reconcile.Models.{
  sql_text, conflict_kind_eq, result_of, all_conflicts, LoggedStatement, LoggedTransaction, ours,
}
use sqlite_reconcile.Database.{Database}
use sqlite_reconcile.Database.Laws.{SavepointLaws}
use sqlite_reconcile.Replay.{ReplayContext, no_source}
use sqlite_reconcile.Replay.Advance.{conflict_resolution_branch_warning}
use sqlite_reconcile.Replay.Plain.{PlainReplay}
use sqlite_reconcile.Replay.Traceless.{Traceless, conflict_resolution_branch_warning-Traceless}
use sqlite_reconcile.Replay.Accept.{append_replayed_log, apply_accepted_transaction}
use sqlite_reconcile.Replay.Accepted.{apply_accepted_transaction-Ending, Ending}
use sqlite_reconcile.Tests.Syntax.{ascii}
use sqlite_reconcile.Tests.Data.{context, update_a, statement, our_head}

abbrev pub Saves : Type 0
Saves = List (String × List String)

pub record Store : Type 0 where
  pub ran : List String
  pub saves : Saves

abbrev pub fails : String → Bool
fails sql = sql == "sql fails"

abbrev pub append_run : String → M Store (Unit {0})
append_run sql s = (record s { ran = s.ran ++ sql ∷ [] }, ok tt)

abbrev pub execute_store : String → M Store (Unit {0})
execute_store sql s =
    if fails sql
    then (s, raised (sqlite_error true "UNIQUE constraint failed: t.id"))
    else append_run sql s

abbrev pub top_restored : Saves → List String → List String
top_restored [] ran = ran
top_restored ((name, before) ∷ outer) ran = before

abbrev pub tail_of : Saves → Saves
tail_of [] = []
tail_of (top ∷ outer) = outer

abbrev pub store : Database
store = record {
  State = Store;
  execute = execute_store;
  run = append_run;
  fetchone = λ query s. (s, ok none);
  column_count = λ query s. (s, ok 1);
  first_value = λ query s. (s, ok (some "ok"));
  fetchall = λ query s. (s, ok []);
  commit = λ s. (s, ok tt);
  savepoint = λ name s. (record s { saves = (name, s.ran) ∷ s.saves }, ok tt);
  rollback_to = λ name s. (record s { ran = top_restored s.saves s.ran }, ok tt);
  release = λ name s. (record s { saves = tail_of s.saves }, ok tt);
  uuid4_hex = λ s. (s, ok "00");
  insert_transaction_row = λ s. (s, ok 1);
  insert_log_row = λ row. append_run row.to_replay_sql_text;
}

pub execute_store-saves : (sql : String) → Contained (λ (s : Store). s.saves) (execute_store sql)
execute_store-saves sql s = by_case (fails sql)
  where
    by_case :
        (b : Bool)
        → Leaves
            (λ (x : Store). x.saves)
            s
            (if b
              then (s, raised (sqlite_error true "UNIQUE constraint failed: t.id"))
              else append_run sql s)
    by_case true = (refl, tt)
    by_case false = (refl, tt)

pub restored :
    (name : String) (before : List String) (outer saves : Saves) (ran : List String)
    → saves ≡ (name, before) ∷ outer
    → top_restored saves ran ≡ before
restored name before outer saves ran h = rw h refl

abbrev pub store_laws : SavepointLaws store
store_laws = record {
  Content = List String;
  content = λ s. s.ran;
  saved = λ s. s.saves;
  IsPlain = λ sql. Unit {0};
  execute-saved = λ sql plain. execute_store-saves sql;
  run-saved = λ sql s. (refl, tt);
  fetchone-Contained = λ query s. (refl, tt);
  column_count-Contained = λ query s. (refl, tt);
  first_value-Contained = λ query s. (refl, tt);
  fetchall-Contained = λ query s. (refl, tt);
  commit_idle = λ s h. (refl, h, refl);
  uuid4_hex-ContainedOk = λ s. (refl, tt);
  insert_transaction_row-saved = λ s. (refl, tt);
  insert_log_row-saved = λ row s. (refl, tt);
  savepoint_opens = λ name s. (refl, refl, refl);
  rollback_restores =
      λ name before outer s h. (restored name before outer s.saves s.ran h, h, refl);
  release_closes = λ name before outer s h. (refl, inl (ap tail_of h, refl));
  release_unchanged = λ name before outer s h e. (ap tail_of h, refl);
}

abbrev pub replay_context : ReplayContext
replay_context = record {
  schema = context;
  control_schema = some "control";
  control_sql_rewriter = some (record {
    rewrite_sql = λ sql. some (concat ("control " ∷ sql ∷ []));
    rewrite_statement = λ s. some (concat ("control " ∷ sql_text s ∷ []));
  });
  tables = ascii;
  parse_statement_metadata = λ sql. some update_a;
  render = λ m. record {
    qualifier = "a";
    target_sql = "a";
    from_sql = none;
    where_sql = none;
    with_sql = none;
    assignments = [];
    insert_source = no_source;
  };
  base_primary_key_columns = λ table. "id" ∷ [];
  same_statement = λ s t. true;
}

abbrev pub with_sql_text : String → LoggedStatement → LoggedStatement
with_sql_text sql s = record s { to_replay_sql_text = sql }

-- Its second statement breaks a constraint on main.
abbrev pub failing : LoggedTransaction
failing = record our_head {
  statements =
      with_sql_text "UPDATE a SET x = 1" (statement ours 1 update_a)
      ∷ with_sql_text "sql fails" (statement ours 1 update_a)
      ∷ [];
}

abbrev pub began : Store
began = record { ran = "before" ∷ []; saves = ("outer", []) ∷ [] }

refused_test : (apply_accepted_transaction store replay_context failing began).0 ≡ began
unfolding apply_accepted_transaction result_of all_conflicts flat_map
refused_test = refl

accepted_test :
    apply_accepted_transaction store replay_context our_head began
    ≡ (record began { ran = "before" ∷ "control sql" ∷ "sql" ∷ "sql" ∷ [] }, ok none)
unfolding apply_accepted_transaction append_replayed_log result_of
accepted_test = refl

abbrev pub plain_all : (s : LoggedStatement) → PlainReplay store store_laws replay_context s
plain_all s = ((tt, λ sql h. tt), λ strict label h. (tt, λ sql g. tt))

apply_accepted_transaction-Ending_example :
    (begun : Store) × (begun.ran ≡ began.ran)
    × Ending store store_laws replay_context failing begun began.ran began.saves
        (apply_accepted_transaction store replay_context failing began)
apply_accepted_transaction-Ending_example =
    apply_accepted_transaction-Ending store store_laws replay_context failing began
      (with_sql_text "sql fails" (statement ours 1 update_a), refl) (plain_all _, (plain_all _, tt))

-- An INSERT OR IGNORE that fails without its OR clause.
abbrev ignoring : LoggedStatement
ignoring =
    with_sql_text "UPDATE OR IGNORE a SET x = 1"
      (statement ours 1 (record update_a { has_reviewable_constraint_resolution = true }))

conflict_resolution_branch_warning-Traceless_example :
    Traceless store store_laws (conflict_resolution_branch_warning store replay_context ignoring)
conflict_resolution_branch_warning-Traceless_example =
    conflict_resolution_branch_warning-Traceless store store_laws replay_context ignoring
      (plain_all ignoring)
