-- ===== src/Namespaces/Handshake/Order.antt =====
-- The child of namespaces/userns_child_exec.c waits for the update of its maps.
use mathlib.Core.Path.{subst}
use my_notes.Common.{
  ℕ, ◌≡◌, refl, sym, ap, ◌∙◌, ◌⊎◌, inl, inr, Bool, true, false, Option, none, some,
}
use my_notes.Namespaces.Options.{CmdOptions}
use my_notes.Namespaces.Maps as Maps
use my_notes.Namespaces.Maps.{update_child_maps}
use my_notes.Namespaces.Maps.Files.{Journal, IsDocumented}
use my_notes.Namespaces.Maps.Written.{Writes, wanted, update_child_maps-Writes}
use my_notes.Namespaces.Actions as Actions
use my_notes.Namespaces.Actions.{perform_repeatable_options}
use my_notes.Namespaces.Handshake.{
  Parent, updating, closing, waiting, exited, running, System, Calls, after_options, after_exec,
  after_update, has_ended, parent_update, parent_close, parent_wait, child_close, child_read,
  child_run, Step, updates, closes, waits, child_closes, child_reads, child_runs, Runs, start,
  after,
}
use my_notes.Namespaces.Handshake.Pipe.{released, holds, runs-Ends}

module _ {C K : Type 0} (calls : Calls K) (files : Maps.Os K) (os : Actions.Os C K) (uid gid : ℕ)
    (opts : CmdOptions) (child_pid : ℕ) (journal : K → Journal) (has_setgroups : Bool)
    (doc : IsDocumented files journal child_pid has_setgroups) where
  -- The update of the maps, from the kernel state `k`.
  abbrev pub Written : K → Bool × K → Type 0
  Written k r =
      Writes files journal child_pid has_setgroups doc
        (wanted files journal child_pid has_setgroups doc uid gid opts) k r

  -- How far the update has come, while the child has not ended.
  abbrev Updated : K → Parent → K → Type 0
  Updated k updating k' = k' ≡ k
  Updated k closing k' = Written k (true, k')
  Updated k waiting k' = Written k (true, k')
  Updated k (exited true) k' = ⊥
  Updated k (exited false) k' = Written k (false, k')

  after_update-Updated : (k : K) (r : Bool × K) → Written k r → Updated k (after_update r.0) r.1
  after_update-Updated k (true, k') h = h
  after_update-Updated k (false, k') h = h

  after_exec-has_ended : (b : Bool) → has_ended (after_exec b) ≡ true
  after_exec-has_ended true = refl
  after_exec-has_ended false = refl

  after_options-has_ended :
      (s : System K) (r : Option K) → has_ended (after_options calls files os opts s r).child ≡ true
  after_options-has_ended s none = refl
  after_options-has_ended s (some k) = after_exec-has_ended (calls.execvp k opts.argv)

  step-Updated :
      (k : K) (s s' : System K)
      → (has_ended s.child ≡ false → Updated k s.parent s.kernel)
      → Step calls files os uid gid opts child_pid s s'
      → has_ended s'.child ≡ false
      → Updated k s'.parent s'.kernel
  unfolding parent_update parent_close parent_wait child_close child_read child_run
  step-Updated k s s' h (updates e) going =
      let same : s.kernel ≡ k = subst (λ p. Updated k p s.kernel) e (h going) in
      after_update-Updated k (update_child_maps files uid gid opts s.kernel child_pid) (
        subst (λ x. Written k (update_child_maps files uid gid opts x child_pid)) (sym same)
          (update_child_maps-Writes files journal child_pid has_setgroups doc uid gid opts k))
  step-Updated k s s' h (closes e) going = subst (λ p. Updated k p s.kernel) e (h going)
  step-Updated k s s' h (waits b e ended) going = absurd (cc)
  step-Updated k s s' h (child_closes e) going = h (ap has_ended e)
  step-Updated k s s' h (child_reads r e returns) going = h (ap has_ended e)
  step-Updated k s s' h (child_runs e) going =
      let ended = after_options-has_ended s (perform_repeatable_options os s.kernel opts) in
      absurd (cc)

  runs-Updated :
      (k : K) (n : ℕ) (s : System K)
      → Runs calls files os uid gid opts child_pid k n s
      → has_ended s.child ≡ false
      → Updated k s.parent s.kernel
  runs-Updated k n s start going = refl
  runs-Updated k n s (after n' s1 s2 before step) going =
      step-Updated k s1 s2 (runs-Updated k n' s1 before) step going

  released_cases :
      (k : K) (p : Parent) (k' : K)
      → holds p ≡ false
      → Updated k p k'
      → ((p ≡ waiting) × Written k (true, k')) ⊎ ((p ≡ exited false) × Written k (false, k'))
  released_cases k updating k' e h = absurd (cc)
  released_cases k closing k' e h = absurd (cc)
  released_cases k waiting k' e h = inl (refl, h)
  released_cases k (exited true) k' e h = absurd h
  released_cases k (exited false) k' e h = inr (refl, h)

  -- Whatever the order of the steps, when the child is about to carry out its options and execute the
  -- command, the parent either has written all the wanted maps, and closed its end of the pipe, or
  -- has exited after a failing write, with the writes before it done and the rest not.
  pub running_child-Written :
      (k : K) (n : ℕ) (s : System K)
      → Runs calls files os uid gid opts child_pid k n s
      → s.child ≡ running
      → ((s.parent ≡ waiting) × Written k (true, s.kernel))
        ⊎ ((s.parent ≡ exited false) × Written k (false, s.kernel))
  running_child-Written k n s runs e =
      let ends = runs-Ends calls files os uid gid opts child_pid k n s runs in
      released_cases k s.parent s.kernel (sym ends.parent_holds ∙ ends.held_back (ap released e))
        (runs-Updated k n s runs (ap has_ended e))
