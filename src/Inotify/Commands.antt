-- ===== src/Inotify/Commands.antt =====
-- The interactive commands of inotify_dtree.c.
pub mod Invariant
use my_notes.Common.{
  ℕ, ◌+◌, Bool, true, ◌||◌, not, List, [], ◌∷◌, Option, none, some, map, Bytes, ℤ, pos, eq_ℤ, ◌==◌,
  if◌then◌else◌,
}
use my_notes.Inotify.Cache.{Watch, live_entries}
use my_notes.Inotify.World.{
  Os, M, success, failure, undefined, ◌>>=◌, ◌>>◌, pure, halt, gets, modify, call,
}
use my_notes.Inotify.Watching.{watch_subtree, zap_subtree, reinitialize}

-- What `read` and `sscanf` make of a line of input: the end of the input or an error, an empty
-- line, or a command letter with its argument, if the line has one.
pub data Input : Type 0 where
  no_input : Input
  blank : Input
  command : ℕ → Option Bytes → Input

-- What the user sees of a command, other than log messages.
pub data Reply : Type 0 where
  quiet : Reply
  zapped : Option ℕ → Reply
  verified : ℕ → ℕ → Reply
  listed : List (ℕ × Watch) → Reply
  written : List Bytes → Reply
  switched : Bool → Reply
  unrecognized : ℕ → Reply

module _ {K : Type 0} (os : Os K) (atoi : Bytes → ℤ) where
  -- The loop of `checkAllCachedPathnamesExist` with its counts of good entries and failures.
  check_pathnames : List (ℕ × Watch) → ℕ → ℕ → M K Reply
  check_pathnames [] cnt failures = pure (verified cnt failures)
  check_pathnames ((j, e) ∷ rest) cnt failures = do
    res ← call (λ k. os.lstat k e.path)
    elim res [
      | none ↦ check_pathnames rest cnt (failures + 1)
      | some st ↦ if st.is_dir then check_pathnames rest (cnt + 1) failures else halt failure
    ]

  pub check_all_cached_pathnames_exist : M K Reply
  check_all_cached_pathnames_exist = do
    c ← gets (λ w. w.cache)
    check_pathnames (live_entries c 0) 0 0

  -- `arg` is not assigned where `sscanf` found none
  refresh_subtree : Option Bytes → M K Reply
  refresh_subtree none = halt undefined
  refresh_subtree (some arg) = do cnt ← zap_subtree os arg; watch_subtree os arg; pure (zapped cnt)

  zap_command : Option Bytes → M K Reply
  zap_command none = halt undefined
  zap_command (some arg) = do cnt ← zap_subtree os arg; pure (zapped cnt)

  -- If `fopen` fails the source goes on with a null stream; here it succeeds.
  write_paths : Option Bytes → M K Reply
  write_paths none = halt undefined
  write_paths (some arg) = gets (λ w. written (map (λ e. e.1.path) (live_entries w.cache 0)))

  set_verbosity : Option Bytes → M K Reply
  set_verbosity (some arg) = do modify (λ w. record w { verbose_mask = atoi arg }); pure quiet
  set_verbosity none = do
    old ← gets (λ w. eq_ℤ w.verbose_mask (pos 0))
    modify (λ w. record w { verbose_mask = if old then pos 1 else pos 0 })
    pure (switched old)

  toggle_dump : M K Reply
  toggle_dump = do
    old ← gets (λ w. w.dump_cache)
    modify (λ w. record w { dump_cache = not old })
    pure (switched (not old))

  toggle_check : M K Reply
  toggle_check = do
    old ← gets (λ w. w.check_cache)
    modify (λ w. record w { check_cache = not old })
    pure (switched (not old))

  rebuild_cache : M K Reply
  rebuild_cache = do
    modify (λ w. record w { kernel = os.close w.kernel w.inotify_fd })
    reinitialize os true
    pure quiet

  run_command : ℕ → Option Bytes → M K Reply
  run_command cmd arg =
      if cmd == b'a'
      then refresh_subtree arg
      else if cmd == b'c' || cmd == b'C'
      then check_all_cached_pathnames_exist
      else if cmd == b'l'
      then gets (λ w. listed (live_entries w.cache 0))
      else if cmd == b'q'
      then halt success
      else if cmd == b'v'
      then set_verbosity arg
      else if cmd == b'd'
      then toggle_dump
      else if cmd == b'x'
      then toggle_check
      else if cmd == b'w'
      then write_paths arg
      else if cmd == b'z'
      then zap_command arg
      else if cmd == b'0'
      then rebuild_cache
      else pure (unrecognized cmd)

  pub execute_command : Input → M K Reply
  execute_command no_input = halt failure
  execute_command blank = pure quiet
  execute_command (command cmd arg) = run_command cmd arg
