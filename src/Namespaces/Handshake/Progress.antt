-- ===== src/Namespaces/Handshake/Progress.antt =====
-- The two processes of namespaces/userns_child_exec.c do not wait for each other for ever.
use my_notes.Common.{
  ℕ, ◌+◌, ◌≤◌, ◌<◌, ◌≡◌, refl, ap, ◌∙◌, ◌⊎◌, inl, inr, Bool, true, false, Option, none, some,
  if◌then◌else◌, arith,
}
use my_notes.Namespaces.Options.{CmdOptions}
use my_notes.Namespaces.Maps as Maps
use my_notes.Namespaces.Maps.{update_child_maps}
use my_notes.Namespaces.Actions as Actions
use my_notes.Namespaces.Actions.{perform_repeatable_options}
use my_notes.Namespaces.Handshake.{
  Parent, updating, closing, waiting, exited, Child, started, reading, running, executed,
  child_failed, Read, at_end, got_byte, read_error, System, Calls, after_options, after_exec,
  after_update, after_read, has_ended, parent_update, parent_close, parent_wait, child_close,
  child_read, child_run, Step, updates, closes, waits, child_closes, child_reads, child_runs, Runs,
  start, after,
}
use my_notes.Namespaces.Handshake.Pipe.{holds, has_closed, Ends, runs-Ends}

-- How many steps a process has at most ahead of it.
abbrev parent_left : Parent → ℕ
parent_left updating = 3
parent_left closing = 2
parent_left waiting = 1
parent_left (exited b) = 0

abbrev child_left : Child → ℕ
child_left started = 3
child_left reading = 2
child_left running = 1
child_left executed = 0
child_left child_failed = 0

abbrev pub has_exited : Parent → Bool
has_exited (exited b) = true
has_exited updating = false
has_exited closing = false
has_exited waiting = false

after_update-left : (b : Bool) → parent_left (after_update b) ≤ 2
after_update-left true = omega arith
after_update-left false = omega arith

after_read-left : (r : Read) → child_left (after_read r) ≤ 1
after_read-left at_end = omega arith
after_read-left got_byte = omega arith
after_read-left read_error = omega arith

after_exec-left : (b : Bool) → child_left (after_exec b) ≡ 0
after_exec-left true = refl
after_exec-left false = refl

module _ {C K : Type 0} (calls : Calls K) (files : Maps.Os K) (os : Actions.Os C K) (uid gid : ℕ)
    (opts : CmdOptions) (child_pid : ℕ) where
  left : System K → ℕ
  left s = parent_left s.parent + child_left s.child

  after_options-left :
      (s : System K) (r : Option K)
      → s.child ≡ running
      → left (after_options calls files os opts s r) < left s
  unfolding left
  after_options-left s none e = let one = ap child_left e in omega arith
  after_options-left s (some k) e =
      let one = ap child_left e in omega (arith, after_exec-left (calls.execvp k opts.argv))

  step-left : (s s' : System K) → Step calls files os uid gid opts child_pid s s' → left s' < left s
  unfolding left parent_update parent_close parent_wait child_close child_read child_run
  step-left s s' (updates e) =
      let three = ap parent_left e in
      omega (arith, after_update-left (update_child_maps files uid gid opts s.kernel child_pid).0)
  step-left s s' (closes e) = let two = ap parent_left e in omega arith
  step-left s s' (waits b e ended) = let one = ap parent_left e in omega arith
  step-left s s' (child_closes e) = let three = ap child_left e in omega arith
  step-left s s' (child_reads r e returns) =
      let two = ap child_left e in omega (arith, after_read-left r)
  step-left s s' (child_runs e) =
      after_options-left s (perform_repeatable_options os s.kernel opts) e

  runs-left :
      (k : K) (n : ℕ) (s : System K)
      → Runs calls files os uid gid opts child_pid k n s
      → n + left s ≤ 6
  unfolding left
  runs-left k n s start = omega arith
  runs-left k n s (after n' s1 s2 before step) =
      omega (arith, runs-left k n' s1 before, step-left s1 s2 step)

  -- Both processes have ended, or one of them can go on.
  abbrev pub GoesOn : System K → Type 0
  GoesOn s =
      ((has_exited s.parent ≡ true) × (has_ended s.child ≡ true))
      ⊎ ((s' : System K) × Step calls files os uid gid opts child_pid s s')

  -- The child goes on, unless it waits for the parent or has ended.
  child_goes_on :
      (s : System K)
      → Ends calls files os uid gid opts child_pid s
      → holds s.parent ≡ false
      → (c : Child) → s.child ≡ c
      → (has_ended c ≡ true) ⊎ ((s' : System K) × Step calls files os uid gid opts child_pid s s')
  child_goes_on s h shut started e = inr (_, child_closes e)
  child_goes_on s h shut reading e = inr (
    _,
    child_reads at_end e
        (h.parent_holds ∙ shut, h.child_holds ∙ ap (λ c. if has_closed c then false else true) e),
  )
  child_goes_on s h shut running e = inr (_, child_runs e)
  child_goes_on s h shut executed e = inl refl
  child_goes_on s h shut child_failed e = inl refl

  parent_GoesOn :
      (s : System K)
      → Ends calls files os uid gid opts child_pid s
      → (p : Parent) → s.parent ≡ p
      → GoesOn s
  parent_GoesOn s h updating e = inr (_, updates e)
  parent_GoesOn s h closing e = inr (_, closes e)
  parent_GoesOn s h waiting e = elim (child_goes_on s h (ap holds e) s.child refl) [
    | inl ended ↦ inr (_, waits true e ended)
    | inr step ↦ inr step
  ]
  parent_GoesOn s h (exited b) e = elim (child_goes_on s h (ap holds e) s.child refl) [
    | inl ended ↦ inl (ap has_exited e, ended)
    | inr step ↦ inr step
  ]

  -- Every run has at most six steps, and as long as not both processes have ended, one of them can take a
  -- step: the read returns at the latest when the parent has closed the pipe or has exited.
  pub runs-GoesOn :
      (k : K) (n : ℕ) (s : System K)
      → Runs calls files os uid gid opts child_pid k n s
      → (n ≤ 6) × GoesOn s
  unfolding left
  runs-GoesOn k n s runs = (
    omega (arith, runs-left k n s runs),
    parent_GoesOn s (runs-Ends calls files os uid gid opts child_pid k n s runs) s.parent refl,
  )
