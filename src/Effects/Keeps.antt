-- ===== src/Effects/Keeps.antt =====
-- Calls that leave a view of the state as it was, whatever they raise.
use sqlite_reconcile.Prelude.{
  String, ◌≡◌, refl, ◌∙◌, Bool, true, false, if◌then◌else◌, string_eq, nat_eq, list_eq,
}
use sqlite_reconcile.Effects.{
  M, continue_with, ◌>>=◌, handle_with, except_sqlite, clean_up_with, try_finally, Result,
  sqlite_error, uncaught, ok, raised,
}
use sqlite_reconcile.Effects.Contained.{Contained}

module _ {S V : Type 0} (view : S → V) where
  pub record Kept {A : Type 0} (s : S) (out : S × Result A) : Type 0 where
    pub same : view out.0 ≡ view s

  abbrev pub Keeps : {A : Type 0} → M S A → Type 0
  Keeps m = (s : S) → Kept s (m s)

  pub to_Kept : {A : Type 0} {s s' : S} {r : Result A} → view s' ≡ view s → Kept s (s', r)
  to_Kept h = record { same = h }

  -- A call that only returns or raises.
  pub still : {A : Type 0} (r : Result A) → Keeps (λ s. (s, r))
  still r s = record { same = refl }

  pub Contained-Keeps : {A : Type 0} (m : M S A) → Contained view m → Keeps m
  Contained-Keeps m h s = record { same = (h s).0 }

  continue_with-Kept :
      {A B : Type 0} (s : S) (out : S × Result A) (f : A → M S B)
      → Kept s out
      → ((a : A) → Keeps (f a))
      → Kept s (continue_with out f)
  continue_with-Kept s (s', ok a) f h k = record { same = (k a s').same ∙ h.same }
  continue_with-Kept s (s', raised e) f h k = record { same = h.same }

  pub >>=-Keeps :
      {A B : Type 0} (m : M S A) (f : A → M S B)
      → Keeps m
      → ((a : A) → Keeps (f a))
      → Keeps (m >>= f)
  >>=-Keeps m f h k s = continue_with-Kept s (m s) f (h s) k

  handle_with-Kept :
      {A : Type 0} (s : S) (out : S × Result A) (handler : Bool → String → M S A)
      → Kept s out
      → ((i : Bool) (message : String) → Keeps (handler i message))
      → Kept s (handle_with out handler)
  handle_with-Kept s (s', ok a) handler h k = h
  handle_with-Kept s (s', raised (sqlite_error i m)) handler h k = record {
    same = (k i m s').same ∙ h.same;
  }
  handle_with-Kept s (s', raised (uncaught error)) handler h k = h

  pub except_sqlite-Keeps :
      {A : Type 0} (m : M S A) (handler : Bool → String → M S A)
      → Keeps m
      → ((i : Bool) (message : String) → Keeps (handler i message))
      → Keeps (except_sqlite m handler)
  except_sqlite-Keeps m handler h k s = handle_with-Kept s (m s) handler (h s) k

  pub clean_up_with-view :
      {A : Type 0} (r : Result A) (out : S × Result (Unit {0}))
      → view (clean_up_with r out).0 ≡ view out.0
  clean_up_with-view r (s, ok _) = refl
  clean_up_with-view r (s, raised e) = refl

  pub try_finally-Keeps :
      {A : Type 0} (m : M S A) (cleanup : M S (Unit {0}))
      → Keeps m
      → Keeps cleanup
      → Keeps (try_finally m cleanup)
  try_finally-Keeps m cleanup h k s = record {
    same = clean_up_with-view (m s).1 (cleanup (m s).0) ∙ (k (m s).0).same ∙ (h s).same;
  }

  pub if-Keeps :
      {A : Type 0} (b : Bool) (m n : M S A) → Keeps m → Keeps n → Keeps (if b then m else n)
  if-Keeps true m n h k = h
  if-Keeps false m n h k = k
