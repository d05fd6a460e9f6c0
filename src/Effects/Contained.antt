-- ===== src/Effects/Contained.antt =====
-- Calls that leave a view of the state as it was and raise nothing but errors of SQLite: the rules
-- by which such calls compose.
use sqlite_reconcile.Prelude.{
  String, ◌≡◌, refl, ◌∙◌, Bool, true, false, if◌then◌else◌, string_eq, nat_eq, list_eq,
}
use sqlite_reconcile.Effects.{
  M, pure, continue_with, ◌>>=◌, handle_with, except_sqlite, clean_up_with, try_finally, Error,
  Result, sqlite_error, uncaught, ok, raised,
}

abbrev pub OnlySqlite : {A : Type 0} → Result A → Type 0
OnlySqlite (ok a) = Unit {0}
OnlySqlite (raised (sqlite_error integrity message)) = Unit {0}
OnlySqlite (raised (uncaught error)) = ⊥

abbrev pub IsOk : {A : Type 0} → Result A → Type 0
IsOk (ok a) = Unit {0}
IsOk (raised e) = ⊥

pub clean_up_with-ok :
    {S A : Type 0} (r : Result A) (out : S × Result (Unit {0}))
    → out.1 ≡ ok tt
    → clean_up_with r out ≡ (out.0, r)
clean_up_with-ok r (s, ok _) h = refl
clean_up_with-ok r (s, raised e) h = cc

pub continue_with-ok :
    {S A B : Type 0} (out : S × Result A) (f : A → M S B) (a : A)
    → out.1 ≡ ok a
    → continue_with out f ≡ f a out.0
continue_with-ok (s, ok b) f a h = let same : b ≡ a = cc in rw same refl
continue_with-ok (s, raised e) f a h = cc

pub continue_with-raised :
    {S A B : Type 0} (out : S × Result A) (f : A → M S B) (e : Error)
    → out.1 ≡ raised e
    → continue_with out f ≡ (out.0, raised e)
continue_with-raised (s, ok b) f e h = cc
continue_with-raised (s, raised x) f e h = let same : x ≡ e = cc in rw same refl

pub handle_with-ok :
    {S A : Type 0} (out : S × Result A) (handler : Bool → String → M S A) (a : A)
    → out.1 ≡ ok a
    → handle_with out handler ≡ out
handle_with-ok (s, ok b) handler a h = refl
handle_with-ok (s, raised e) handler a h = cc

pub handle_with-sqlite :
    {S A : Type 0} (out : S × Result A) (handler : Bool → String → M S A) (i : Bool) (m : String)
    → out.1 ≡ raised (sqlite_error i m)
    → handle_with out handler ≡ handler i m out.0
handle_with-sqlite (s, ok b) handler i m h = cc
handle_with-sqlite (s, raised (sqlite_error i' m')) handler i m h =
    let same : i' ≡ i = cc in let text : m' ≡ m = cc in rw (same, text) refl
handle_with-sqlite (s, raised (uncaught error)) handler i m h = cc

-- A bind that returns: its first part has returned, and so has the second.
pub continue_with-result :
    {S A B : Type 0} (out : S × Result A) (f : A → M S B) {b : B}
    → (continue_with out f).1 ≡ ok b
    → (a : A) × (out.1 ≡ ok a) × ((f a out.0).1 ≡ ok b)
continue_with-result (s, ok a) f h = (a, refl, h)
continue_with-result (s, raised e) f h = cc

module _ {S V : Type 0} (view : S → V) where
  abbrev pub Leaves : {A : Type 0} → S → S × Result A → Type 0
  Leaves s out = (view out.0 ≡ view s) × OnlySqlite out.1

  abbrev pub Contained : {A : Type 0} → M S A → Type 0
  Contained m = (s : S) → Leaves s (m s)

  abbrev pub ContainedOk : {A : Type 0} → M S A → Type 0
  ContainedOk m = (s : S) → (view (m s).0 ≡ view s) × IsOk (m s).1

  pub pure-Contained : {A : Type 0} (a : A) → Contained (pure {S = S} a)
  pure-Contained a s = (refl, tt)

  pub continue_with-Leaves :
      {A B : Type 0} (s : S) (out : S × Result A) (f : A → M S B)
      → Leaves s out
      → ((a : A) → Contained (f a))
      → Leaves s (continue_with out f)
  continue_with-Leaves s (s', ok a) f h k = ((k a s').0 ∙ h.0, (k a s').1)
  continue_with-Leaves s (s', raised e) f h k = h

  pub >>=-Contained :
      {A B : Type 0} (m : M S A) (f : A → M S B)
      → Contained m
      → ((a : A) → Contained (f a))
      → Contained (m >>= f)
  >>=-Contained m f h k s = continue_with-Leaves s (m s) f (h s) k

  handle_with-Leaves :
      {A : Type 0} (s : S) (out : S × Result A) (handler : Bool → String → M S A)
      → Leaves s out
      → ((integrity : Bool) (message : String) → Contained (handler integrity message))
      → Leaves s (handle_with out handler)
  handle_with-Leaves s (s', ok a) handler h k = h
  handle_with-Leaves s (s', raised (sqlite_error i m)) handler h k =
      ((k i m s').0 ∙ h.0, (k i m s').1)
  handle_with-Leaves s (s', raised (uncaught error)) handler h k = h

  pub except_sqlite-Contained :
      {A : Type 0} (m : M S A) (handler : Bool → String → M S A)
      → Contained m
      → ((integrity : Bool) (message : String) → Contained (handler integrity message))
      → Contained (except_sqlite m handler)
  except_sqlite-Contained m handler h k s = handle_with-Leaves s (m s) handler (h s) k

  clean_up_with-Leaves :
      {A : Type 0} (s s' : S) (r : Result A) (out : S × Result (Unit {0}))
      → OnlySqlite r
      → view s' ≡ view s
      → Leaves s' out
      → Leaves s (clean_up_with r out)
  clean_up_with-Leaves s s' r (s'', ok _) h e k = (k.0 ∙ e, h)
  clean_up_with-Leaves s s' r (s'', raised x) h e k = (k.0 ∙ e, k.1)

  pub try_finally-Contained :
      {A : Type 0} (m : M S A) (cleanup : M S (Unit {0}))
      → Contained m
      → Contained cleanup
      → Contained (try_finally m cleanup)
  try_finally-Contained m cleanup h k s =
      clean_up_with-Leaves s (m s).0 (m s).1 (cleanup (m s).0) (h s).1 (h s).0 (k (m s).0)

  pub if-Contained :
      {A : Type 0} (b : Bool) (m n : M S A)
      → Contained m
      → Contained n
      → Contained (if b then m else n)
  if-Contained true m n h k = h
  if-Contained false m n h k = k

  pub ok-Contained : {A : Type 0} (m : M S A) → ContainedOk m → Contained m
  ok-Contained m h s = ((h s).0, weaken (m s).1 (h s).1)
    where
      weaken : {B : Type 0} (r : Result B) → IsOk r → OnlySqlite r
      weaken (ok a) _ = tt
      weaken (raised e) bad = elim bad [ ]
