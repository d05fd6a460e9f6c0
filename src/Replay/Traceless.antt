-- ===== src/Replay/Traceless.antt =====
-- What a replay leaves as it was: the open savepoints, and, for a probe, the data too.
use sqlite_reconcile.Prelude.{
  String, ◌≡◌, refl, ap, Bool, true, false, Option, none, some, [], ◌∷◌, ◌++◌, if◌then◌else◌,
  string_eq, nat_eq, list_eq, concat,
}
use sqlite_reconcile.Effects.{
  M, pure, ◌>>=◌, of_result, Result, ok, raised, sqlite_error, uncaught, index_error, parse_error,
}
use sqlite_reconcile.Effects.Contained.{
  IsOk, OnlySqlite, Contained, >>=-Contained, except_sqlite-Contained, if-Contained, ok-Contained,
}
use sqlite_reconcile.Models.{
  conflict_kind_eq, ConflictScope, LoggedStatement, LoggedTransaction, replay_error,
}
use sqlite_reconcile.Metadata.{StatementMetadata}
use sqlite_reconcile.ConflictSyntax.{StrictReplayRewrite}
use sqlite_reconcile.Database.{quote_identifier, fresh_savepoint, Database}
use sqlite_reconcile.Database.Laws.{SavepointLaws}
use sqlite_reconcile.Database.Savepoints.{snapshot, discarded-Contained}
use sqlite_reconcile.Replay.{
  control_sql_for_statement, clean_control_failure, strict_rewrite,
  strict_conflict_resolution_statement, ReplayContext,
}
use sqlite_reconcile.Replay.Execute.{
  Failure, failure_of, upsert_failure, foreign_key_check_error, deferred_failure,
  execute_sql_for_replay, execute_statement_on_main, execute_statement_on_control,
}
use sqlite_reconcile.Replay.Advance.{
  savepoint_statement_failure, conflict_resolution_branch_warning,
  strict_constraint_resolution_failure,
}
use sqlite_reconcile.Replay.Plain.{PlainStatement, PlainReplay}

-- Any exception but an `IndexError`.
abbrev pub NoIndexError : {A : Type 0} → Result A → Type 0
NoIndexError (ok a) = Unit {0}
NoIndexError (raised (sqlite_error integrity message)) = Unit {0}
NoIndexError (raised (uncaught parse_error)) = Unit {0}
NoIndexError (raised (uncaught index_error)) = ⊥

module _ (db : Database) (laws : SavepointLaws db) where
  open laws use {Content, content, saved, IsPlain}

  pub snapshot-saved :
      {A : Type 0} (m : M db.State A) → Contained (snapshot db laws) m → Contained saved m
  snapshot-saved m h s = (ap (λ x. x.1) (h s).0, (h s).1)

  pub foreign_key_check_error-Contained :
      (schema : Option String) → Contained (snapshot db laws) (foreign_key_check_error db schema)
  unfolding foreign_key_check_error
  foreign_key_check_error-Contained schema =
      >>=-Contained (snapshot db laws) _ _ (laws.fetchone-Contained _) (λ row s. (refl, tt))

  deferred_failure-Contained :
      (statement : LoggedStatement) (scope : ConflictScope) (label : String)
      (schema : Option String)
      → Contained (snapshot db laws) (deferred_failure db statement scope label schema)
  unfolding deferred_failure
  deferred_failure-Contained statement scope label schema =
      >>=-Contained (snapshot db laws) _ _ (foreign_key_check_error-Contained schema)
        (λ row s. (refl, tt))

  pub execute_sql_for_replay-Contained :
      (statement : LoggedStatement) (sql : String) (scope : ConflictScope) (label : String)
      (schema : Option String) (check : Bool)
      → IsPlain sql
      → Contained saved (execute_sql_for_replay db statement sql scope label schema check)
  unfolding execute_sql_for_replay
  execute_sql_for_replay-Contained statement sql scope label schema check p =
      >>=-Contained saved _ _
        (except_sqlite-Contained saved _ _
          (>>=-Contained saved _ _ (laws.execute-saved sql p) (λ _ s. (refl, tt)))
          (λ i m s. (refl, tt)))
        finish
    where
      finish :
          (failure : Failure)
          → Contained saved (elim failure as (λ f. M db.State Failure) [
            | some f ↦ pure (some f)
            | none ↦ (if check then deferred_failure db statement scope label schema else pure none)
          ])
      finish (some f) = λ s. (refl, tt)
      finish none =
          if-Contained saved check _ _
            (snapshot-saved _ (deferred_failure-Contained statement scope label schema))
            (λ s. (refl, tt))

  pub fresh_savepoint-Contained :
      (prefix : String) → Contained (snapshot db laws) (fresh_savepoint db prefix)
  fresh_savepoint-Contained prefix =
      >>=-Contained (snapshot db laws) _ _
        (ok-Contained (snapshot db laws) _ laws.uuid4_hex-ContainedOk) (λ hex s. (refl, tt))

  -- The name that a savepoint is given, and the state behind it.
  abbrev pub Named : String → db.State → Type 0
  Named prefix s =
      (s' : db.State) × (name : String) × (fresh_savepoint db prefix s ≡ (s', ok name))
      × (snapshot db laws s' ≡ snapshot db laws s)

  pub fresh_savepoint-Named : (prefix : String) (s : db.State) → Named prefix s
  fresh_savepoint-Named prefix s = drawn (db.uuid4_hex s) refl (laws.uuid4_hex-ContainedOk s)
    where
      drawn :
          (out : db.State × Result String)
          → db.uuid4_hex s ≡ out
          → (snapshot db laws out.0 ≡ snapshot db laws s) × IsOk out.1
          → Named prefix s
      drawn (s', ok hex) e h = (s', quote_identifier (concat (prefix ∷ hex ∷ [])), rw e refl, h.0)
      drawn (s', raised x) e h = elim h.1 [ ]

  -- The data and the open savepoints are as before, and no `IndexError` is raised.
  abbrev pub Traceless : {A : Type 0} → M db.State A → Type 0
  Traceless m =
      (x : db.State) → (snapshot db laws (m x).0 ≡ snapshot db laws x) × NoIndexError (m x).1

  Contained-Traceless :
      {A : Type 0} (m : M db.State A) → Contained (snapshot db laws) m → Traceless m
  Contained-Traceless m h x = ((h x).0, tolerated (m x).1 (h x).1)
    where
      tolerated : {B : Type 0} (r : Result B) → OnlySqlite r → NoIndexError r
      tolerated (ok a) e = tt
      tolerated (raised (sqlite_error i message)) e = tt
      tolerated (raised (uncaught u)) e = elim e [ ]

  module _ (context : ReplayContext) where
    pub execute_statement_on_main-Contained :
        (s : LoggedStatement) (scope : ConflictScope) (label : String) (check : Bool)
        → PlainStatement db laws context s
        → Contained saved (execute_statement_on_main db context s scope label check)
    unfolding execute_statement_on_main
    execute_statement_on_main-Contained s scope label check p =
        execute_sql_for_replay-Contained s _ scope label none check p.0

    pub execute_statement_on_control-Contained :
        (s : LoggedStatement) (scope : ConflictScope) (label : String) (check : Bool)
        → PlainStatement db laws context s
        → Contained saved (execute_statement_on_control db context s scope label check)
    unfolding execute_statement_on_control
    execute_statement_on_control-Contained s scope label check p =
        rewritten (control_sql_for_statement context s) p.1
      where
        rewritten :
            (control : Option String)
            → ((sql : String) → control ≡ some sql → IsPlain sql)
            → Contained saved (elim control as (λ c. M db.State Failure) [
              | none ↦ pure (
                  some (
                    failure_of replay_error scope
                      "statement cannot be rewritten for control database" label s))
              | some control_sql ↦ (do
                failure ←
                    execute_sql_for_replay db s control_sql scope label context.control_schema check
                pure (upsert_failure s (clean_control_failure context failure)))
            ])
        rewritten none plain = λ x. (refl, tt)
        rewritten (some sql) plain =
            >>=-Contained saved _ _
              (execute_sql_for_replay-Contained s sql scope label context.control_schema check
                (plain sql refl))
              (λ failure x. (refl, tt))

    pub savepoint_statement_failure-Contained :
        (s : LoggedStatement) (control : Bool) (scope : ConflictScope) (label : String)
        → PlainStatement db laws context s
        → Contained
            (snapshot db laws)
            (savepoint_statement_failure db context s control scope label)
    unfolding savepoint_statement_failure
    savepoint_statement_failure-Contained s control scope label p =
        >>=-Contained (snapshot db laws) _ _ (fresh_savepoint-Contained _) (λ name.
          discarded-Contained db laws name _ (
            if-Contained saved control _ _
              (execute_statement_on_control-Contained s scope label true p)
              (execute_statement_on_main-Contained s scope label true p)))

    strict_form-tolerated :
        (s : LoggedStatement) → NoIndexError (strict_conflict_resolution_statement context s)
    unfolding strict_conflict_resolution_statement
    strict_form-tolerated s = rewritten (strict_rewrite context s)
      where
        parsed :
            (sql label : String) (m : Option StatementMetadata)
            → NoIndexError (elim m as (λ x. Result (Option (LoggedStatement × String))) [
              | none ↦ raised (uncaught parse_error)
              | some metadata ↦ ok (
                  some (
                    record s {
                      to_replay_sql_text = sql;
                      metadata = metadata;
                      replay_warnings =
                          s.replay_warnings ++ concat ("strict replay removed " ∷ label ∷ []) ∷ [];
                    },
                    label,
                  ))
            ])
        parsed sql label none = tt
        parsed sql label (some m) = tt

        rewritten :
            (o : Option StrictReplayRewrite)
            → NoIndexError (elim o as (λ x. Result (Option (LoggedStatement × String))) [
              | none ↦ ok none
              | some rewrite ↦
                  (elim (context.parse_statement_metadata rewrite.sql)
                    as (λ x. Result (Option (LoggedStatement × String))) [
                      | none ↦ raised (uncaught parse_error)
                      | some metadata ↦ ok (
                          some (
                            record s {
                              to_replay_sql_text = rewrite.sql;
                              metadata = metadata;
                              replay_warnings =
                                  s.replay_warnings
                                  ++ concat ("strict replay removed " ∷ rewrite.label ∷ []) ∷ [];
                            },
                            rewrite.label,
                          ))
                    ])
            ])
        rewritten none = tt
        rewritten (some rewrite) =
            parsed rewrite.sql rewrite.label (context.parse_statement_metadata rewrite.sql)

    -- A call on the strict form leaves no trace if it leaves none on each form that there is.
    on_strict-Traceless :
        {A : Type 0} (s : LoggedStatement) (f : LoggedStatement × String → M db.State (Option A))
        → PlainReplay db laws context s
        → ((t : LoggedStatement) (label : String)
            → PlainStatement db laws context t
            → Contained (snapshot db laws) (f (t, label)))
        → Traceless (
            of_result (strict_conflict_resolution_statement context s) >>= λ strict.
            elim strict as (λ x. M db.State (Option A)) [ none ↦ pure none | some form ↦ f form ])
    on_strict-Traceless {A} s f p kept =
        probed (strict_conflict_resolution_statement context s) (strict_form-tolerated s) p.1
      where
        probed :
            (strict : Result (Option (LoggedStatement × String)))
            → NoIndexError strict
            → ((t : LoggedStatement) (label : String)
                → strict ≡ ok (some (t, label))
                → PlainStatement db laws context t)
            → Traceless (
                of_result strict >>= λ strict. elim strict as (λ x. M db.State (Option A)) [
                  | none ↦ pure none
                  | some form ↦ f form
                ])
        probed (ok none) fine plain = λ x. (refl, tt)
        probed (ok (some (t, label))) fine plain =
            Contained-Traceless _ (kept t label (plain t label refl))
        probed (raised e) fine plain = λ x. (refl, fine)

    -- The probe for a warning leaves no trace: whatever the strict statement did, and also where
    -- its SQL cannot be parsed or SQLite raises, the data and the open savepoints are as before.
    -- It raises no IndexError. Neither the strict SQL nor its control copy is a transaction
    -- command or rolls the transaction back, and SQLite keeps the documented laws of savepoints.
    pub conflict_resolution_branch_warning-Traceless :
        (s : LoggedStatement)
        → PlainReplay db laws context s
        → Traceless (conflict_resolution_branch_warning db context s)
    unfolding conflict_resolution_branch_warning
    conflict_resolution_branch_warning-Traceless s p = on_strict-Traceless s _ p (λ t label plain.
        >>=-Contained (snapshot db laws) _ _
          (savepoint_statement_failure-Contained t false _ _ plain) (λ failure x. (refl, tt)))

    pub strict_constraint_resolution_failure-Traceless :
        (current : LoggedTransaction) (s : LoggedStatement)
        → PlainReplay db laws context s
        → Traceless (strict_constraint_resolution_failure db context current s)
    unfolding strict_constraint_resolution_failure
    strict_constraint_resolution_failure-Traceless current s p =
        on_strict-Traceless s _ p (λ t label plain.
          >>=-Contained (snapshot db laws) _ _
            (savepoint_statement_failure-Contained t false _ _ plain)
            (λ before.
              >>=-Contained (snapshot db laws) _ _
                (savepoint_statement_failure-Contained t true _ _ plain) (λ after x. (refl, tt))))
