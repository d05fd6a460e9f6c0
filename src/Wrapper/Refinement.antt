-- ===== src/Wrapper/Refinement.antt =====
-- src/sqlite_wrapper/wrapper.py: the buffer and its positions keep the open transaction.
use sqlite_reconcile.Prelude.{
  ◌+◌, String, ◌≡◌, refl, sym, ap, ◌∙◌, inl, inr, true, false, none, some, List, [], ◌∷◌, ◌++◌, map,
  Bool-cases, length, take, nonempty, length-append, nat_eq, string_eq, list_eq,
}
use sqlite_reconcile.Wrapper.{
  begin, discard, write, flushed_entries, flush, savepoint, drop_last, release_savepoint,
  rollback_to_savepoint, record_effectful_entry, LogEntry, SqliteWrapper,
}
use sqlite_reconcile.Wrapper.Spec.{
  Frames, entries_of, surviving, add_entry, open_savepoint, release_innermost, rollback_to,
  spec_steps, wrapper_steps, Transaction, Step, log_statement, set_savepoint, roll_back_to,
  release_last,
}
use mathlib.Core.Path.{ap₂}
use mathlib.Core.List.{append-nil, append_assoc}
use sqlite_reconcile.Wrapper.Frames.{
  IsFramed, entries_of-add_behind, marks-add_behind, entries_of-append, marks-append,
  entries_of-release_frames, marks-release_frames, take-append, Found, absent, present,
  find_savepoint-Found,
}

abbrev transaction : List LogEntry → Frames → Transaction
transaction before frames = record { before = before; frames = frames }

record_effectful_entry-IsFramed :
    {origin : SqliteWrapper} (e : LogEntry) (w : SqliteWrapper) (before : List LogEntry)
    (frames : Frames)
    → IsFramed origin w (transaction before frames)
    → IsFramed origin (record_effectful_entry (some e) w) (add_entry e (transaction before frames))
unfolding record_effectful_entry
record_effectful_entry-IsFramed e w before [] r = rw r.is_open (record {
  is_open = refl;
  log_is = r.log_is;
  id_is = r.id_is;
  error_is = r.error_is;
  buffer_is =
      ap (λ es. es ++ e ∷ []) (r.buffer_is ∙ append-nil before)
      ∙ sym (append-nil (before ++ e ∷ []));
  savepoints_are = r.savepoints_are;
})
record_effectful_entry-IsFramed e w before (f ∷ frames) r = rw r.is_open (record {
  is_open = refl;
  log_is = r.log_is;
  id_is = r.id_is;
  error_is = r.error_is;
  buffer_is =
      ap (λ es. es ++ e ∷ []) r.buffer_is
      ∙ append_assoc before (entries_of (f ∷ frames)) (e ∷ [])
      ∙ ap (λ es. before ++ es) (sym (entries_of-add_behind e f frames));
  savepoints_are = r.savepoints_are ∙ sym (marks-add_behind e (f ∷ frames) (length before));
})

savepoint-IsFramed :
    {origin : SqliteWrapper} (name : String) (w : SqliteWrapper) (t : Transaction)
    → IsFramed origin w t
    → IsFramed origin (savepoint name w) (open_savepoint name t)
unfolding savepoint
savepoint-IsFramed name w t r = rw r.is_open (record {
  is_open = refl;
  log_is = r.log_is;
  id_is = r.id_is;
  error_is = r.error_is;
  buffer_is =
      r.buffer_is
      ∙ ap (λ es. t.before ++ es)
          (sym (entries_of-append t.frames ((name, []) ∷ []) ∙ append-nil (entries_of t.frames)));
  savepoints_are =
      ap₂ (λ ms k. ms ++ (name, k) ∷ []) r.savepoints_are
        (ap length r.buffer_is ∙ length-append t.before (entries_of t.frames))
      ∙ sym (marks-append t.frames name (length t.before));
})

rollback_to_savepoint-IsFramed :
    {origin : SqliteWrapper} (upper : String → String) (name : String) (w : SqliteWrapper)
    (t : Transaction)
    → IsFramed origin w t
    → IsFramed origin (rollback_to_savepoint upper name w) (rollback_to upper name t)
unfolding rollback_to_savepoint
rollback_to_savepoint-IsFramed {origin = origin} upper name w t r =
    moved (find_savepoint-Found upper name t.frames (length t.before))
  where
    moved :
        Found upper name (length t.before) t.frames
        → IsFramed origin (rollback_to_savepoint upper name w) (rollback_to upper name t)
    moved (absent p q) = rw (rollback_to_savepoint, rollback_to, r.savepoints_are, q, p) r
    moved (present kept gone p q e) =
        rw (rollback_to_savepoint, rollback_to, r.savepoints_are, q, p)
          (record {
            is_open = r.is_open;
            log_is = r.log_is;
            id_is = r.id_is;
            error_is = r.error_is;
            buffer_is =
                ap₂ take (sym (length-append t.before (entries_of kept))) (
                  r.buffer_is
                  ∙ ap (λ es. t.before ++ es) (sym e)
                  ∙ sym (append_assoc t.before (entries_of kept) gone))
                ∙ take-append (t.before ++ entries_of kept) gone;
            savepoints_are = refl;
          })

release_savepoint-IsFramed :
    {origin : SqliteWrapper} (w : SqliteWrapper) (before : List LogEntry) (frames : Frames)
    → IsFramed origin w (transaction before frames)
    → IsFramed origin (release_savepoint true w) (release_innermost (transaction before frames))
unfolding release_savepoint
release_savepoint-IsFramed w before [] r = rw r.is_open (record {
  is_open = refl;
  log_is = r.log_is;
  id_is = r.id_is;
  error_is = r.error_is;
  buffer_is = r.buffer_is;
  savepoints_are = ap drop_last r.savepoints_are;
})
release_savepoint-IsFramed w before (f ∷ []) r = rw r.is_open (record {
  is_open = refl;
  log_is = r.log_is;
  id_is = r.id_is;
  error_is = r.error_is;
  buffer_is = r.buffer_is ∙ sym (append_assoc before f.1 []);
  savepoints_are = ap drop_last r.savepoints_are;
})
release_savepoint-IsFramed w before (f ∷ g ∷ frames) r = rw r.is_open (record {
  is_open = refl;
  log_is = r.log_is;
  id_is = r.id_is;
  error_is = r.error_is;
  buffer_is = r.buffer_is ∙ ap (λ es. before ++ es) (sym (entries_of-release_frames frames f g));
  savepoints_are =
      ap drop_last r.savepoints_are ∙ sym (marks-release_frames frames f g (length before));
})

-- If the buffer and the savepoints of the wrapper stand for a nested transaction, they stand for
-- it again after any sequence of logged statements, new savepoints, rollbacks to a savepoint and
-- releases of the innermost savepoint, and the log is untouched.
pub wrapper_steps-IsFramed :
    {origin : SqliteWrapper} (upper : String → String) (steps : List Step) (w : SqliteWrapper)
    (t : Transaction)
    → IsFramed origin w t
    → IsFramed origin (wrapper_steps upper steps w) (spec_steps upper steps t)
unfolding wrapper_steps
wrapper_steps-IsFramed upper [] w t r = r
wrapper_steps-IsFramed upper (log_statement e ∷ steps) w t r =
    wrapper_steps-IsFramed upper steps _ _ (record_effectful_entry-IsFramed e w t.before t.frames r)
wrapper_steps-IsFramed upper (set_savepoint name ∷ steps) w t r =
    wrapper_steps-IsFramed upper steps _ _ (savepoint-IsFramed name w t r)
wrapper_steps-IsFramed upper (roll_back_to name ∷ steps) w t r =
    wrapper_steps-IsFramed upper steps _ _ (rollback_to_savepoint-IsFramed upper name w t r)
wrapper_steps-IsFramed upper (release_last ∷ steps) w t r =
    wrapper_steps-IsFramed upper steps _ _ (release_savepoint-IsFramed w t.before t.frames r)

begin-IsFramed : (w : SqliteWrapper) → IsFramed (begin w) (begin w) (transaction [] [])
unfolding begin
begin-IsFramed w = record {
  is_open = refl;
  buffer_is = refl;
  savepoints_are = refl;
  log_is = refl;
  id_is = refl;
  error_is = refl;
}

flush-log :
    (w : SqliteWrapper)
    → w.transaction_error_reason ≡ none
    → (flush w).log ≡ w.log ++ map (λ e. (w.last_transaction_id + 1, e)) w.buffer
unfolding flush write discard flushed_entries
flush-log w h = elim (Bool-cases (nonempty w.buffer)) [
  | inl b ↦ rw (flush, b, h) refl
  | inr b ↦
      rw (flush, b)
        (sym (append-nil w.log)
          ∙ ap (λ es. w.log ++ map (λ e. (w.last_transaction_id + 1, e)) es)
              (sym (empty_buffer w.buffer b)))
]
  where
    empty_buffer : (es : List LogEntry) → nonempty es ≡ false → es ≡ []
    empty_buffer [] b = refl
    empty_buffer (e ∷ es) b = cc

-- A transaction that begins, logs statements, sets savepoints, rolls back to savepoints by name
-- and releases the innermost ones, with no statement that fails, is logged at its COMMIT by
-- exactly the statements that survive in the nested transaction, in their order and under one new
-- id.
pub commit-surviving :
    (upper : String → String) (steps : List Step) (w : SqliteWrapper)
    → (flush (wrapper_steps upper steps (begin w))).log
      ≡ w.log
        ++ map
            (λ e. (w.last_transaction_id + 1, e))
            (surviving (spec_steps upper steps (transaction [] [])))
unfolding begin
commit-surviving upper steps w =
    let r = wrapper_steps-IsFramed upper steps (begin w) (transaction [] []) (begin-IsFramed w) in
    flush-log (wrapper_steps upper steps (begin w)) r.error_is
    ∙ ap₂ (λ log rest. log ++ rest) r.log_is
        (ap₂ (λ n es. map (λ e. (n + 1, e)) es) r.id_is r.buffer_is)
