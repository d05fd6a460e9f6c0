-- ===== src/Wrapper/Frames.antt =====
-- src/sqlite_wrapper/wrapper.py: the positions of savepoints in a buffer, and the nested savepoints.
use sqlite_reconcile.Prelude.{
  ℕ, ◌+◌, String, ◌≡◌, refl, sym, ap, ◌∙◌, Bool, true, false, none, some, List, [], ◌∷◌, ◌++◌,
  arith, length, take, length-append, ◌==◌, nat_eq, string_eq, list_eq,
}
use sqlite_reconcile.Wrapper.{drop_last, find_savepoint, LogEntry, SqliteWrapper}
use sqlite_reconcile.Wrapper.Spec.{
  Frames, entries_of, surviving, add_behind, release_frames, rollback_frames, Transaction,
}
use mathlib.Core.List.{append-nil, append_assoc}

-- The savepoints of the wrapper: each name, and how many statements stand in front of it.
abbrev pub marks : ℕ → Frames → List (String × ℕ)
marks n [] = []
marks n ((name, entries) ∷ frames) = (name, n) ∷ marks (n + length entries) frames

-- The wrapper is inside the transaction that began at `origin`, which stands at `t`.
pub record IsFramed (origin w : SqliteWrapper) (t : Transaction) : Type 0 where
  pub is_open : w.in_transaction ≡ true
  pub buffer_is : w.buffer ≡ surviving t
  pub savepoints_are : w.savepoints ≡ marks (length t.before) t.frames
  pub log_is : w.log ≡ origin.log
  pub id_is : w.last_transaction_id ≡ origin.last_transaction_id
  pub error_is : w.transaction_error_reason ≡ origin.transaction_error_reason

pub entries_of-add_behind :
    (e : LogEntry) (f : String × List LogEntry) (frames : Frames)
    → entries_of (add_behind e (f ∷ frames)) ≡ entries_of (f ∷ frames) ++ e ∷ []
entries_of-add_behind e f [] =
    append-nil (f.1 ++ e ∷ []) ∙ ap (λ es. es ++ e ∷ []) (sym (append-nil f.1))
entries_of-add_behind e f (g ∷ frames) =
    ap (λ es. f.1 ++ es) (entries_of-add_behind e g frames)
    ∙ sym (append_assoc f.1 (entries_of (g ∷ frames)) (e ∷ []))

pub marks-add_behind :
    (e : LogEntry) (frames : Frames) (n : ℕ) → marks n (add_behind e frames) ≡ marks n frames
marks-add_behind e [] n = refl
marks-add_behind e (f ∷ []) n = refl
marks-add_behind e (f ∷ g ∷ frames) n =
    ap (λ ms. (f.0, n) ∷ ms) (marks-add_behind e (g ∷ frames) (n + length f.1))

pub entries_of-append :
    (frames gs : Frames) → entries_of (frames ++ gs) ≡ entries_of frames ++ entries_of gs
entries_of-append [] gs = refl
entries_of-append (f ∷ frames) gs =
    ap (λ es. f.1 ++ es) (entries_of-append frames gs)
    ∙ sym (append_assoc f.1 (entries_of frames) (entries_of gs))

pub marks-append :
    (frames : Frames) (name : String) (n : ℕ)
    → marks n (frames ++ (name, []) ∷ [])
      ≡ marks n frames ++ (name, n + length (entries_of frames)) ∷ []
marks-append [] name n = ap (λ k. (name, k) ∷ []) (omega arith)
marks-append (f ∷ frames) name n =
    ap (λ ms. (f.0, n) ∷ ms)
      (marks-append frames name (n + length f.1)
        ∙ ap (λ k. marks (n + length f.1) frames ++ (name, k) ∷ [])
            (omega (arith, length-append f.1 (entries_of frames))))

pub entries_of-release_frames :
    (frames : Frames) (f g : String × List LogEntry)
    → entries_of (release_frames (f ∷ g ∷ frames)) ≡ entries_of (f ∷ g ∷ frames)
entries_of-release_frames [] f g = append_assoc f.1 g.1 []
entries_of-release_frames (h ∷ frames) f g =
    ap (λ es. f.1 ++ es) (entries_of-release_frames frames g h)

pub marks-release_frames :
    (frames : Frames) (f g : String × List LogEntry) (n : ℕ)
    → marks n (release_frames (f ∷ g ∷ frames)) ≡ drop_last (marks n (f ∷ g ∷ frames))
marks-release_frames [] f g n = refl
marks-release_frames (h ∷ frames) f g n =
    ap (λ ms. (f.0, n) ∷ ms) (marks-release_frames frames g h (n + length f.1))

module _ {A : Type 0} where
  pub take-append : (xs ys : List A) → take (length xs) (xs ++ ys) ≡ xs
  take-append [] ys = refl
  take-append (x ∷ xs) ys = ap (λ zs. x ∷ zs) (take-append xs ys)

-- What the search for a savepoint finds among the marks is what stays of the frames.
pub data Found (upper : String → String) (name : String) (n : ℕ) (frames : Frames) : Type 0 where
  absent :
      rollback_frames upper name frames ≡ none
      → find_savepoint upper name (marks n frames) ≡ none
      → Found upper name n frames
  present :
      (kept : Frames) (gone : List LogEntry)
      → rollback_frames upper name frames ≡ some kept
      → find_savepoint upper name (marks n frames)
        ≡ some (marks n kept, n + length (entries_of kept))
      → entries_of kept ++ gone ≡ entries_of frames
      → Found upper name n frames

pub find_savepoint-Found :
    (upper : String → String) (name : String) (frames : Frames) (n : ℕ) → Found upper name n frames
unfolding find_savepoint
find_savepoint-Found upper name [] n = absent refl refl
find_savepoint-Found upper name (f ∷ frames) n =
    within (find_savepoint-Found upper name frames (n + length f.1))
  where
    here :
        (b : Bool)
        → (upper f.0 == upper name) ≡ b
        → rollback_frames upper name frames ≡ none
        → find_savepoint upper name (marks (n + length f.1) frames) ≡ none
        → Found upper name n (f ∷ frames)
    here true e p q =
        present ((f.0, []) ∷ []) (f.1 ++ entries_of frames) (rw (rollback_frames, p, e) refl)
          (rw (find_savepoint, q, e) (ap (λ k. some ((f.0, n) ∷ [], k)) (omega arith))) refl
    here false e p q = absent (rw (rollback_frames, p, e) refl) (rw (find_savepoint, q, e) refl)

    within : Found upper name (n + length f.1) frames → Found upper name n (f ∷ frames)
    within (absent p q) = here (upper f.0 == upper name) refl p q
    within (present kept gone p q r) =
        present (f ∷ kept) gone (rw (rollback_frames, p) refl)
          (rw (find_savepoint, q)
            (ap (λ k. some ((f.0, n) ∷ marks (n + length f.1) kept, k))
              (omega (arith, length-append f.1 (entries_of kept)))))
          (append_assoc f.1 (entries_of kept) gone ∙ ap (λ es. f.1 ++ es) r)
