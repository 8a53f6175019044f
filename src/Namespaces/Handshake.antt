-- ===== src/Namespaces/Handshake.antt =====
-- namespaces/userns_child_exec.c: `main` and `childFunc`, which a pipe keeps in order.
pub mod Pipe
pub mod Order
pub mod Progress
use my_notes.Common.{
  ℕ, suc, zero, Bool, true, false, ◌≡◌, Option, none, some, List, Bytes, if◌then◌else◌,
}
use my_notes.Namespaces.Options.{CloneFlag, Opt, CmdOptions, parse_command_options}
use my_notes.Namespaces.Maps as Maps
use my_notes.Namespaces.Maps.{update_child_maps}
use my_notes.Namespaces.Actions as Actions
use my_notes.Namespaces.Actions.{perform_repeatable_options}

-- How far the parent is behind the call of `clone`, and the child from its start.
pub data Parent : Type 0 where
  updating closing waiting : Parent
  exited : Bool → Parent

pub data Child : Type 0 where
  started reading running executed child_failed : Child

-- What `read` on the pipe returns: 0, 1, or -1.
pub data Read : Type 0 where
  at_end : Read
  got_byte : Read
  read_error : Read

-- The two processes, whether each of them has the write end of the pipe open, and the kernel.
pub record System (K : Type 0) : Type 0 where
  pub parent : Parent
  pub child : Child
  pub parent_end : Bool
  pub child_end : Bool
  pub kernel : K

-- The calls of `main` before the child runs, and `execvp`, which tells whether it succeeds.
pub record Calls (K : Type 0) : Type 0 where
  pub set_dumpable : K → Option K
  pub pipe : K → Option K
  pub mmap_stack : K → Option K
  pub clone : K → (CloneFlag → Bool) → Option (ℕ × K)
  pub execvp : K → List Bytes → Bool

infixl 5 ◌>>=◌
abbrev pub ◌>>=◌ : {A B : Type 0} → Option A → (A → Option B) → Option B
none >>= f = none
some a >>= f = f a

abbrev pub begins : {K : Type 0} → K → System K
begins k = record {
  parent = updating;
  child = started;
  parent_end = true;
  child_end = true;
  kernel = k;
}

abbrev pub after_read : Read → Child
after_read at_end = running
after_read got_byte = child_failed
after_read read_error = child_failed

-- `read` returns 0 if no process has the write end open. Nobody writes to the pipe.
abbrev pub ReadReturns : {K : Type 0} → System K → Read → Type 0
ReadReturns s at_end = (s.parent_end ≡ false) × (s.child_end ≡ false)
ReadReturns s got_byte = ⊥
ReadReturns s read_error = Unit {0}

abbrev pub after_exec : Bool → Child
after_exec true = executed
after_exec false = child_failed

abbrev pub after_update : Bool → Parent
after_update true = closing
after_update false = exited false

-- Has the child or the command ended?
abbrev pub has_ended : Child → Bool
has_ended executed = true
has_ended child_failed = true
has_ended started = false
has_ended reading = false
has_ended running = false

module _ {C K : Type 0} (calls : Calls K) (files : Maps.Os K) (os : Actions.Os C K) where
  -- `main` up to the call of `clone`; `none` is an exit.
  pub main : K → List Opt → List Bytes → Option (CmdOptions × (ℕ × System K))
  main k args rest = do
    opts ← parse_command_options args rest
    dumpable ← calls.set_dumpable k
    piped ← calls.pipe dumpable
    mapped ← calls.mmap_stack piped
    cloned ← calls.clone mapped opts.flags
    some (opts, (cloned.0, begins cloned.1))

  -- The parent updates the maps, or exits, which closes its end of the pipe.
  unfoldable pub parent_update : ℕ → ℕ → CmdOptions → ℕ → System K → System K
  parent_update uid gid opts child_pid s =
      let r = update_child_maps files uid gid opts s.kernel child_pid in
      record s { parent = after_update r.0; parent_end = r.0; kernel = r.1 }

  unfoldable pub parent_close : System K → System K
  parent_close s = record s { parent = waiting; parent_end = false }

  unfoldable pub parent_wait : Bool → System K → System K
  parent_wait waited s = record s { parent = exited waited }

  unfoldable pub child_close : System K → System K
  child_close s = record s { child = reading; child_end = false }

  unfoldable pub child_read : Read → System K → System K
  child_read r s = record s { child = after_read r }

  -- The end of `childFunc`.
  abbrev pub after_options : CmdOptions → System K → Option K → System K
  after_options opts s none = record s { child = child_failed }
  after_options opts s (some k) = record s {
    child = after_exec (calls.execvp k opts.argv);
    kernel = k;
  }

  unfoldable pub child_run : CmdOptions → System K → System K
  child_run opts s = after_options opts s (perform_repeatable_options os s.kernel opts)

  -- The processes take turns in any order. The update of the maps is one step, since the child does not use
  -- the kernel's files meanwhile but for closing its end of the pipe.
  pub data Step (uid gid : ℕ) (opts : CmdOptions) (child_pid : ℕ) (s : System K)
      : System K → Type 0 where
    updates :
        s.parent ≡ updating → Step uid gid opts child_pid s (parent_update uid gid opts child_pid s)
    closes : s.parent ≡ closing → Step uid gid opts child_pid s (parent_close s)
    waits :
        (waited : Bool)
        → s.parent ≡ waiting
        → has_ended s.child ≡ true
        → Step uid gid opts child_pid s (parent_wait waited s)
    child_closes : s.child ≡ started → Step uid gid opts child_pid s (child_close s)
    child_reads :
        (r : Read)
        → s.child ≡ reading
        → ReadReturns s r
        → Step uid gid opts child_pid s (child_read r s)
    child_runs : s.child ≡ running → Step uid gid opts child_pid s (child_run opts s)

  -- So many steps from the first state.
  pub data Runs (uid gid : ℕ) (opts : CmdOptions) (child_pid : ℕ) (k : K)
      : ℕ → System K → Type 0 where
    start : Runs uid gid opts child_pid k zero (begins k)
    after :
        (n : ℕ) (s s' : System K)
        → Runs uid gid opts child_pid k n s
        → Step uid gid opts child_pid s s'
        → Runs uid gid opts child_pid k (suc n) s'
