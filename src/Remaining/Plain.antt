-- ===== src/Remaining/Plain.antt =====
-- src/merge/remaining_metadata.py: statements that cascade to no table, by their kinds.
use sqlite_reconcile.Prelude.{
  String, ◌≡◌, refl, sym, ap, ◌∙◌, Bool, true, false, not, ◌&&◌, ◌||◌, none, some, [], ◌∷◌, arith,
  if◌then◌else◌, ◌==◌, nat_eq, string_eq, list_eq,
}
use mathlib.Core.Path.{ap₂}
use sqlite_reconcile.Utils.{Columns, all_columns, columns_meet}
use sqlite_reconcile.Utils.Overlap.{columns_meet_comm}
use sqlite_reconcile.Metadata.{
  StatementMetadata, StatementKind, insert_kind, update_kind, delete_kind, other_kind,
  statement_kind_of, required_updated_table, is_kind, is_delete_statement, is_insert_statement,
  ParsedSql, insert_expr, update_expr, delete_expr, other_expr,
}
use sqlite_reconcile.StaticAnalysis.Overlaps.{
  direct_write_write_overlap, metadata_write_write_overlap,
}
use sqlite_reconcile.StaticAnalysis.Symmetric.{direct_write_write_overlap_lem, same_table}

-- Metadata as the parser builds it for a statement that cascades to no table.
pub record IsPlain (m : StatementMetadata) : Type 0 where
  pub kind_of : m.statement_kind ≡ statement_kind_of m.parsed_sql_text
  pub table_of :
      m.table_updated
      ≡ (if is_kind m.statement_kind other_kind then none else some (required_updated_table m))
  pub delete_all : m.statement_kind ≡ delete_kind → m.columns_updated ≡ all_columns ∷ []
  pub no_events : m.cascade_write_events ≡ []
  pub no_cascade : m.has_cascade_effects ≡ false

delete_expr-kind :
    (p : ParsedSql)
    → (elim p [ delete_expr ↦ true | _ ↦ false ]) ≡ is_kind (statement_kind_of p) delete_kind
unfolding statement_kind_of
delete_expr-kind (insert_expr target) = refl
delete_expr-kind update_expr = refl
delete_expr-kind delete_expr = refl
delete_expr-kind other_expr = refl

insert_expr-kind :
    (p : ParsedSql)
    → (elim p [ insert_expr target ↦ true | _ ↦ false ]) ≡ is_kind (statement_kind_of p) insert_kind
unfolding statement_kind_of
insert_expr-kind (insert_expr target) = refl
insert_expr-kind update_expr = refl
insert_expr-kind delete_expr = refl
insert_expr-kind other_expr = refl

module _ {m : StatementMetadata} (plain : IsPlain m) where
  is_delete_statement-kind : is_delete_statement m ≡ is_kind m.statement_kind delete_kind
  is_delete_statement-kind =
      delete_expr-kind m.parsed_sql_text ∙ ap (λ k. is_kind k delete_kind) (sym plain.kind_of)

  is_insert_statement-kind : is_insert_statement m ≡ is_kind m.statement_kind insert_kind
  is_insert_statement-kind =
      insert_expr-kind m.parsed_sql_text ∙ ap (λ k. is_kind k insert_kind) (sym plain.kind_of)

-- Whether statements of two kinds overlap, if they write these columns of these tables.
abbrev pub kinds_overlap :
    StatementKind → StatementKind → String → String → Columns → Columns → Bool
kinds_overlap update_kind update_kind table u columns other =
    u == table && columns_meet columns other
kinds_overlap update_kind delete_kind table u columns other =
    u == table && columns_meet columns other
kinds_overlap delete_kind update_kind table u columns other =
    u == table && columns_meet columns other
kinds_overlap _ _ table u columns other = false

-- The tests of the kinds come out as the table of the kinds that can overlap.
kinds_overlap_lem :
    (k l : StatementKind) (table u : String) (columns other : Columns)
    → (same_table
          (if is_kind k other_kind then none else some table)
          (if is_kind l other_kind then none else some u)
        && (not (is_kind k delete_kind && is_kind l delete_kind)
            && (not (is_kind k insert_kind || is_kind l insert_kind)
                && columns_meet columns other)))
      ≡ kinds_overlap k l table u columns other
kinds_overlap_lem insert_kind insert_kind table u columns other = ground arith
kinds_overlap_lem insert_kind update_kind table u columns other = ground arith
kinds_overlap_lem insert_kind delete_kind table u columns other = ground arith
kinds_overlap_lem insert_kind other_kind table u columns other = refl
kinds_overlap_lem update_kind insert_kind table u columns other = ground arith
kinds_overlap_lem update_kind update_kind table u columns other = refl
kinds_overlap_lem update_kind delete_kind table u columns other = refl
kinds_overlap_lem update_kind other_kind table u columns other = refl
kinds_overlap_lem delete_kind insert_kind table u columns other = ground arith
kinds_overlap_lem delete_kind update_kind table u columns other = refl
kinds_overlap_lem delete_kind delete_kind table u columns other = ground arith
kinds_overlap_lem delete_kind other_kind table u columns other = refl
kinds_overlap_lem other_kind l table u columns other = refl

direct_write_write_overlap-kinds :
    (o t : StatementMetadata)
    → IsPlain o
    → IsPlain t
    → direct_write_write_overlap o t
      ≡ kinds_overlap o.statement_kind t.statement_kind
          (required_updated_table o)
          (required_updated_table t)
          o.columns_updated
          t.columns_updated
direct_write_write_overlap-kinds o t p q =
    direct_write_write_overlap_lem o t
    ∙ ap₂ ◌&&◌ (ap₂ same_table p.table_of q.table_of) (
        ap₂ (λ d i. not d && i) (ap₂ ◌&&◌ (is_delete_statement-kind p) (is_delete_statement-kind q))
          (ap₂ (λ i b. not i && b)
            (ap₂ ◌||◌ (is_insert_statement-kind p) (is_insert_statement-kind q))
            (columns_meet_comm t.columns_updated o.columns_updated)))
    ∙ kinds_overlap_lem o.statement_kind t.statement_kind (required_updated_table o)
        (required_updated_table t) o.columns_updated t.columns_updated

-- The static test comes out as the table of the kinds that can overlap.
pub metadata_write_write_overlap-kinds :
    (o t : StatementMetadata)
    → IsPlain o
    → IsPlain t
    → metadata_write_write_overlap o t
      ≡ kinds_overlap o.statement_kind t.statement_kind
          (required_updated_table o)
          (required_updated_table t)
          o.columns_updated
          t.columns_updated
unfolding metadata_write_write_overlap
metadata_write_write_overlap-kinds o t p q =
    ground (arith, p.no_cascade, q.no_cascade) ∙ direct_write_write_overlap-kinds o t p q
