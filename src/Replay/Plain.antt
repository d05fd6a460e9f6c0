-- ===== src/Replay/Plain.antt =====
-- The statements whose replay leaves the savepoints open: no transaction command and nothing that rolls
-- the transaction back, in the statement, in its control copy and in its strict form.
use sqlite_reconcile.Effects.{ok}
use sqlite_reconcile.Prelude.{String, ◌≡◌, some, List, [], ◌∷◌, string_eq, nat_eq, list_eq}
use sqlite_reconcile.Models.{sql_text, conflict_kind_eq, LoggedStatement}
use sqlite_reconcile.Database.{Database}
use sqlite_reconcile.Database.Laws.{SavepointLaws}
use sqlite_reconcile.Replay.{
  control_sql_for_statement, strict_conflict_resolution_statement, ReplayContext,
}

module _ (db : Database) (laws : SavepointLaws db) (context : ReplayContext) where
  open laws use {IsPlain}

  abbrev pub PlainStatement : LoggedStatement → Type 0
  PlainStatement s =
      IsPlain (sql_text s)
      × ((sql : String) → control_sql_for_statement context s ≡ some sql → IsPlain sql)

  abbrev pub PlainReplay : LoggedStatement → Type 0
  PlainReplay s =
      PlainStatement s
      × ((strict : LoggedStatement) (label : String)
          → strict_conflict_resolution_statement context s ≡ ok (some (strict, label))
          → PlainStatement strict)

  abbrev pub ArePlain : List LoggedStatement → Type 0
  ArePlain [] = Unit {0}
  ArePlain (s ∷ statements) = PlainReplay s × ArePlain statements
