-- ===== src/Namespaces/Handshake/Pipe.antt =====
-- Which ends of the pipe are open.

use my_notes.Common.{
  ℕ, ◌≡◌, refl, sym, ap, ◌∙◌, Bool, true, false, Option, none, some, if◌then◌else◌,
}
use my_notes.Namespaces.Options.{CmdOptions}
use my_notes.Namespaces.Maps as Maps
use my_notes.Namespaces.Maps.{update_child_maps}
use my_notes.Namespaces.Actions as Actions
use my_notes.Namespaces.Actions.{perform_repeatable_options}
use my_notes.Namespaces.Handshake.{
  Parent, updating, closing, waiting, exited, Child, started, reading, running, executed,
  child_failed, Read, at_end, got_byte, read_error, System, Calls, after_options, after_exec,
  after_update, after_read, ReadReturns, parent_update, parent_close, parent_wait, child_close,
  child_read, child_run, Step, updates, closes, waits, child_closes, child_reads, child_runs, Runs,
  start, after,
}

-- Does the parent have the write end open?
abbrev pub holds : Parent → Bool
holds updating = true
holds closing = true
holds waiting = false
holds (exited b) = false

abbrev pub has_closed : Child → Bool
has_closed started = false
has_closed reading = true
has_closed running = true
has_closed executed = true
has_closed child_failed = true

-- Has the child been released from the pipe?
abbrev pub released : Child → Bool
released started = false
released reading = false
released running = true
released executed = true
released child_failed = false

module _ {C K : Type 0} (calls : Calls K) (files : Maps.Os K) (os : Actions.Os C K) (uid gid : ℕ)
    (opts : CmdOptions) (child_pid : ℕ) where
  -- The ends of the pipe that are open follow from how far the processes are.
  pub record Ends (s : System K) : Type 0 where
    pub parent_holds : s.parent_end ≡ holds s.parent
    pub child_holds : s.child_end ≡ (if has_closed s.child then false else true)
    pub held_back : released s.child ≡ true → s.parent_end ≡ false

  after_exec-has_closed : (b : Bool) → has_closed (after_exec b) ≡ true
  after_exec-has_closed true = refl
  after_exec-has_closed false = refl

  after_update-holds : (b : Bool) → b ≡ holds (after_update b)
  after_update-holds true = refl
  after_update-holds false = refl

  after_read-has_closed : (r : Read) → has_closed (after_read r) ≡ true
  after_read-has_closed at_end = refl
  after_read-has_closed got_byte = refl
  after_read-has_closed read_error = refl

  after_options-Ends :
      (s : System K) (r : Option K)
      → s.child ≡ running
      → Ends s
      → Ends (after_options calls files os opts s r)
  after_options-Ends s none e h = record {
    parent_holds = h.parent_holds;
    child_holds = h.child_holds ∙ ap (λ c. if has_closed c then false else true) e;
    held_back = λ r. absurd (cc);
  }
  after_options-Ends s (some k) e h = record {
    parent_holds = h.parent_holds;
    child_holds =
        h.child_holds
        ∙ (ap (λ c. if has_closed c then false else true) e
            ∙ sym (
                ap (λ b. if b then false else true)
                  (after_exec-has_closed (calls.execvp k opts.argv))));
    held_back = λ r. h.held_back (ap released e);
  }

  -- the child is released only if the read has returned 0
  read_released :
      (s : System K) (r : Read)
      → ReadReturns s r
      → released (after_read r) ≡ true
      → s.parent_end ≡ false
  read_released s at_end returns e = returns.0
  read_released s got_byte returns e = absurd returns
  read_released s read_error returns e = absurd (cc)

  not_released : (s : System K) → Ends s → s.parent ≡ updating → released s.child ≡ true → ⊥
  not_released s h e r = let shut = h.held_back r in let held = h.parent_holds ∙ ap holds e in cc

  step-Ends : (s s' : System K) → Ends s → Step calls files os uid gid opts child_pid s s' → Ends s'
  unfolding parent_update parent_close parent_wait child_close child_read child_run
  step-Ends s s' h (updates e) = record {
    parent_holds = after_update-holds (update_child_maps files uid gid opts s.kernel child_pid).0;
    child_holds = h.child_holds;
    held_back = λ r. absurd (not_released s h e r);
  }
  step-Ends s s' h (closes e) = record {
    parent_holds = refl;
    child_holds = h.child_holds;
    held_back = λ r. refl;
  }
  step-Ends s s' h (waits b e ended) = record {
    parent_holds = h.parent_holds ∙ ap holds e;
    child_holds = h.child_holds;
    held_back = h.held_back;
  }
  step-Ends s s' h (child_closes e) = record {
    parent_holds = h.parent_holds;
    child_holds = refl;
    held_back = λ r. absurd (cc);
  }
  step-Ends s s' h (child_reads r e returns) = record {
    parent_holds = h.parent_holds;
    child_holds =
        h.child_holds
        ∙ (ap (λ c. if has_closed c then false else true) e
            ∙ sym (ap (λ b. if b then false else true) (after_read-has_closed r)));
    held_back = read_released s r returns;
  }
  step-Ends s s' h (child_runs e) =
      after_options-Ends s (perform_repeatable_options os s.kernel opts) e h

  pub runs-Ends :
      (k : K) (n : ℕ) (s : System K) → Runs calls files os uid gid opts child_pid k n s → Ends s
  runs-Ends k n s start = record {
    parent_holds = refl;
    child_holds = refl;
    held_back = λ r. absurd (cc);
  }
  runs-Ends k n s (after n' s1 s2 before step) = step-Ends s1 s2 (runs-Ends k n' s1 before) step
