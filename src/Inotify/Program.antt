-- ===== src/Inotify/Program.antt =====
-- `main` of inotify_dtree.c.
pub mod Invariant
use my_notes.Common.{
  ℕ, Bool, true, false, List, [], ◌∷◌, Option, none, some, Bytes, ℤ, pos, minus_one, if◌then◌else◌,
}
use my_notes.Inotify.World.{Os, World, ReadResult, M, failure, ◌>>=◌, ◌>>◌, pure, halt, modify}
use my_notes.Inotify.Roots.{copy_root_dir_paths}
use my_notes.Inotify.Watching.{reinitialize}
use my_notes.Inotify.Reading.{process_inotify_events}
use my_notes.Inotify.Commands.{Input, execute_command}

-- One result of `getopt`. The file of `-l` may fail to open; `-b` only bounds the first `read`.
pub data Opt : Type 0 where
  abort_on_problem : Bytes → Opt
  check_each : Opt
  dump_each : Opt
  verbosity : Bytes → Opt
  buffer_size : Bytes → Opt
  log_file : Bool → Opt
  bad_option : Opt

-- What `select` reports: the line that can be read from standard input, if it is ready, and
-- what the calls of `read` on the inotify descriptor will return, if that is ready.
pub record Ready : Type 0 where
  pub stdin : Option Input
  pub inotify : Option (List ReadResult)

-- the global variables before `main`
pub start : {K : Type 0} → K → World K
start kernel = record {
  kernel = kernel;
  cache = [];
  root_dir_paths = [];
  ignore_root_dirs = 0;
  dir_cnt = 0;
  reinit_cnt = 0;
  overflow_cnt = 0;
  inotify_read_cnt = 0;
  verbose_mask = pos 0;
  check_cache = false;
  dump_cache = false;
  abort_on_cache_problem = false;
  has_log = false;
  dumps = [];
  inotify_fd = minus_one;
}

module _ {K : Type 0} (os : Os K) (atoi : Bytes → ℤ) where
  set_option : Opt → M K (Unit {0})
  set_option (abort_on_problem file) = modify (λ w. record w { abort_on_cache_problem = true })
  set_option check_each = modify (λ w. record w { check_cache = true })
  set_option dump_each = modify (λ w. record w { dump_cache = true })
  set_option (verbosity arg) = modify (λ w. record w { verbose_mask = atoi arg })
  set_option (buffer_size arg) = pure tt
  set_option (log_file is_open) =
      if is_open then modify (λ w. record w { has_log = true }) else halt failure
  set_option bad_option = halt failure

  set_options : List Opt → M K (Unit {0})
  set_options [] = pure tt
  set_options (o ∷ opts) = do set_option o; set_options opts

  serve_input : Option Input → M K (Unit {0})
  serve_input none = pure tt
  serve_input (some input) = do reply ← execute_command os atoi input; pure tt

  serve_events : Option (List ReadResult) → M K (Unit {0})
  serve_events none = pure tt
  serve_events (some reads) = do progress ← process_inotify_events os reads; pure tt

  -- one round of the loop of `main`
  serve : Ready → M K (Unit {0})
  serve ready = do serve_input ready.stdin; serve_events ready.inotify

  serve_all : List Ready → M K (Unit {0})
  serve_all [] = pure tt
  serve_all (ready ∷ rest) = do serve ready; serve_all rest

  -- The program through the given results of `select`.
  pub run : List Opt → List Bytes → List Ready → M K (Unit {0})
  run opts [] rounds = do set_options opts; halt failure
  run opts (p ∷ argv) rounds = do
    set_options opts
    copy_root_dir_paths os (p ∷ argv)
    reinitialize os true
    serve_all rounds
