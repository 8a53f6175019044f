-- ===== src/Inotify/World/Keeps.antt =====
-- The invariant of the global variables of inotify_dtree.c, and rules for what keeps it.
use my_notes.Common.{
  ℕ, ◌+◌, ◌≡◌, ◌⊎◌, Bool, true, false, List, [], ◌∷◌, Option, none, some, Bytes, ℤ, minus_one,
  is_nonneg, if◌then◌else◌,
}
use my_notes.Inotify.Cache.WellFormed.{IsWellFormed}
use my_notes.Inotify.World.{
  Os, World, Exit, M, Outcome, ret, stop, Ensures, continue, ◌>>=◌, pure, halt, gets, modify, call,
}

-- The number of root pathnames that were zapped.
abbrev pub zapped_count : List (Option Bytes) → ℕ
zapped_count [] = 0
zapped_count (none ∷ roots) = zapped_count roots + 1
zapped_count (some p ∷ roots) = zapped_count roots

pub record IsConsistent {K : Type 0} (w : World K) : Type 0 where
  pub well_formed : IsWellFormed w.cache
  pub ignored : w.ignore_root_dirs ≡ zapped_count w.root_dir_paths

-- A watch descriptor is not negative; the only other result of `inotify_add_watch` is -1.
pub record IsDocumented {K : Type 0} (os : Os K) : Type 0 where
  pub add_watch_result :
      (k : K) (fd : ℤ) (pathname : Bytes) (is_root : Bool)
      → ((os.inotify_add_watch k fd pathname is_root).0.0 ≡ minus_one)
        ⊎ (is_nonneg (os.inotify_add_watch k fd pathname is_root).0.0 ≡ true)

module _ {K : Type 0} where
  -- The variables are consistent, also where the program stops.
  abbrev pub LeavesConsistent : {A : Type 0} → Outcome K A → Type 0
  LeavesConsistent o = Ensures (λ _ w. IsConsistent w) IsConsistent o

  pub record Keeps {A : Type 0} (m : M K A) : Type 0 where
    pub keep : (w : World K) → IsConsistent w → LeavesConsistent (m w)

  continue-LeavesConsistent :
      {A B : Type 0} (o : Outcome K A) (f : A → M K B)
      → LeavesConsistent o
      → ((a : A) → Keeps (f a))
      → LeavesConsistent (continue o f)
  continue-LeavesConsistent (ret a w) f h k = (k a).keep w h
  continue-LeavesConsistent (stop e w) f h k = h

  pub Keeps-bind :
      {A B : Type 0} (m : M K A) (f : A → M K B)
      → Keeps m
      → ((a : A) → Keeps (f a))
      → Keeps (m >>= f)
  unfolding ◌>>=◌
  Keeps-bind m f h k = record { keep = λ w g. continue-LeavesConsistent (m w) f (h.keep w g) k }

  pub Keeps-pure : {A : Type 0} (a : A) → Keeps {A = A} (pure a)
  unfolding pure
  Keeps-pure a = record { keep = λ w g. g }

  pub Keeps-halt : {A : Type 0} (e : Exit) → Keeps {A = A} (halt e)
  unfolding halt
  Keeps-halt e = record { keep = λ w g. g }

  pub Keeps-gets : {A : Type 0} (f : World K → A) → Keeps (gets f)
  unfolding gets
  Keeps-gets f = record { keep = λ w g. g }

  pub Keeps-call : {A : Type 0} (f : K → A × K) → Keeps (call f)
  unfolding call
  Keeps-call f = record {
    keep = λ w g. record { well_formed = g.well_formed; ignored = g.ignored };
  }

  pub Keeps-modify :
      (f : World K → World K)
      → ((w : World K) → IsConsistent w → IsConsistent (f w))
      → Keeps (modify f)
  unfolding modify
  Keeps-modify f h = record { keep = h }

  -- A change of other variables.
  pub Keeps-frame :
      (f : World K → World K)
      → ((w : World K)
          → ((f w).cache ≡ w.cache)
            × ((f w).ignore_root_dirs ≡ w.ignore_root_dirs)
            × ((f w).root_dir_paths ≡ w.root_dir_paths))
      → Keeps (modify f)
  Keeps-frame f h = Keeps-modify f (λ w g. record {
    well_formed = rw (h w).0 g.well_formed;
    ignored = rw ((h w).1, (h w).2) g.ignored;
  })

  pub Keeps-if :
      {A : Type 0} (b : Bool) (m n : M K A) → Keeps m → Keeps n → Keeps (if b then m else n)
  Keeps-if true m n h k = h
  Keeps-if false m n h k = k

  pub Keeps-elim :
      {A B : Type 0} (o : Option A) (m : M K B) (f : A → M K B)
      → Keeps m
      → ((a : A) → Keeps (f a))
      → Keeps (elim o [ none ↦ m | some a ↦ f a ])
  Keeps-elim none m f h k = h
  Keeps-elim (some a) m f h k = k a

pub ruleset keeps = (Keeps-bind, Keeps-pure, Keeps-halt, Keeps-gets, Keeps-call, Keeps-if)
