-- ===== src/Cluster/Up/Rules.antt =====
-- One rule for each kind of call that a run goes on after. `I` is kept by all that a run does.
use talos_in_qemu.Prelude.{String, Option, none, some, List, Result, ok, err}
use talos_in_qemu.Cluster.Up.Effects.{Event, Failure, M, after, checked, returned, given, failing}

-- A run ends well: the invariant holds of its history, and `Q` holds of the result where it did not fail.
pub data Ends {A : Type 0} (I : List Event → Type 0) (Q : A → List Event → Type 0)
    : List Event × Result Failure A → Type 0 where
  done : {t : List Event} {a : A} → I t → Q a t → Ends I Q (t, ok a)
  failed : {t : List Event} {e : Failure} → I t → Ends I Q (t, err e)

pub after_ok :
    {A B : Type 0} {I : List Event → Type 0} {R : B → List Event → Type 0} (a : A) (h : List Event)
    (f : A → M B)
    → Ends I R (f a h)
    → Ends I R (after f (h, ok a))
unfolding after
after_ok a h f r = r

pub after_checked :
    {B : Type 0} {I : List Event → Type 0} {R : B → List Event → Type 0} (o : Option String)
    (h : List Event) (f : Unit {0} → M B)
    → I h
    → Ends I R (f tt h)
    → Ends I R (after f (checked o h))
unfolding after checked
after_checked none h f orderly r = r
after_checked (some e) h f orderly r = failed orderly

module _ {A B : Type 0} {I : List Event → Type 0} {R : B → List Event → Type 0} where
  pub after_returned :
      (m : Result String A) (h : List Event) (f : A → M B)
      → I h
      → ((a : A) → Ends I R (f a h))
      → Ends I R (after f (returned m h))
  unfolding after returned
  after_returned (ok a) h f orderly r = r a
  after_returned (err e) h f orderly r = failed orderly

  pub after-Ends :
      {Q : A → List Event → Type 0} {m : List Event × Result Failure A} (f : A → M B)
      → Ends I Q m
      → ((a : A) (t : List Event) → I t → Q a t → Ends I R (f a t))
      → Ends I R (after f m)
  unfolding after
  after-Ends f (done {t} {a} orderly q) r = r a t orderly q
  after-Ends f (failed orderly) r = failed orderly

pub after_given :
    {A B : Type 0} {I : List Event → Type 0} {R : B → List Event → Type 0} (m : Result Failure A)
    (h : List Event) (f : A → M B)
    → I h
    → ((a : A) → Ends I R (f a h))
    → Ends I R (after f (given m h))
unfolding after given
after_given (ok a) h f orderly r = r a
after_given (err e) h f orderly r = failed orderly

pub resuming-Ends :
    {A : Type 0} {I : List Event → Type 0} {Q : A → List Event → Type 0}
    {m : List Event × Result Failure A}
    → Ends I Q m
    → Ends I Q (failing m)
unfolding failing
resuming-Ends (done orderly q) = done orderly q
resuming-Ends (failed orderly) = failed orderly

pub Ends-history :
    {A : Type 0} {I : List Event → Type 0} {Q : A → List Event → Type 0}
    {m : List Event × Result Failure A}
    → Ends I Q m
    → I m.0
Ends-history (done o q) = o
Ends-history (failed o) = o
