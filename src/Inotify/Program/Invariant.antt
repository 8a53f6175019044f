-- ===== src/Inotify/Program/Invariant.antt =====
-- The whole program keeps its variables consistent.
use my_notes.Common.{refl, true, List, [], ◌∷◌, Option, none, some, Bytes, ℤ}
use my_notes.Inotify.World.{Os, ReadResult, failure}
use my_notes.Inotify.World.Keeps.{
  IsDocumented, Keeps, LeavesConsistent, Keeps-bind, Keeps-if, Keeps-frame, Keeps-halt, Keeps-pure,
}
use my_notes.Inotify.Roots.Copying.{copy_root_dir_paths-Keeps}
use my_notes.Inotify.Watching.Invariant.{reinitialize-Keeps}
use my_notes.Inotify.Reading.Invariant.{process_inotify_events-Keeps}
use my_notes.Inotify.Commands.{Input}
use my_notes.Inotify.Commands.Invariant.{execute_command-Keeps}
use my_notes.Inotify.Program.{
  Opt, abort_on_problem, check_each, dump_each, verbosity, buffer_size, log_file, bad_option, Ready,
  start, set_option, set_options, serve_input, serve_events, serve, serve_all, run,
}

module _ {K : Type 0} (os : Os K) (atoi : Bytes → ℤ) (doc : IsDocumented os) where
  set_option-Keeps : (o : Opt) → Keeps (set_option os atoi o)
  unfolding set_option
  set_option-Keeps (abort_on_problem file) = Keeps-frame _ (λ w. (refl, refl, refl))
  set_option-Keeps check_each = Keeps-frame _ (λ w. (refl, refl, refl))
  set_option-Keeps dump_each = Keeps-frame _ (λ w. (refl, refl, refl))
  set_option-Keeps (verbosity arg) = Keeps-frame _ (λ w. (refl, refl, refl))
  set_option-Keeps (buffer_size arg) = Keeps-pure tt
  set_option-Keeps (log_file is_open) =
      Keeps-if is_open _ _ (Keeps-frame _ (λ w. (refl, refl, refl))) (Keeps-halt failure)
  set_option-Keeps bad_option = Keeps-halt failure

  set_options-Keeps : (opts : List Opt) → Keeps (set_options os atoi opts)
  unfolding set_options
  set_options-Keeps [] = Keeps-pure tt
  set_options-Keeps (o ∷ opts) = Keeps-bind _ _ (set_option-Keeps o) (λ _. set_options-Keeps opts)

  serve_input-Keeps : (input : Option Input) → Keeps (serve_input os atoi input)
  unfolding serve_input
  serve_input-Keeps none = Keeps-pure tt
  serve_input-Keeps (some input) =
      Keeps-bind _ _ (execute_command-Keeps os atoi doc input) (λ _. Keeps-pure tt)

  serve_events-Keeps : (reads : Option (List ReadResult)) → Keeps (serve_events os atoi reads)
  unfolding serve_events
  serve_events-Keeps none = Keeps-pure tt
  serve_events-Keeps (some reads) =
      Keeps-bind _ _ (process_inotify_events-Keeps os doc reads) (λ _. Keeps-pure tt)

  serve_all-Keeps : (rounds : List Ready) → Keeps (serve_all os atoi rounds)
  unfolding serve_all serve
  serve_all-Keeps [] = Keeps-pure tt
  serve_all-Keeps (ready ∷ rest) =
      Keeps-bind _ _
        (Keeps-bind _ _ (serve_input-Keeps ready.stdin) (λ _. serve_events-Keeps ready.inotify))
        (λ _. serve_all-Keeps rest)

  run-Keeps :
      (opts : List Opt) (argv : List Bytes) (rounds : List Ready)
      → Keeps (run os atoi opts argv rounds)
  unfolding run
  run-Keeps opts [] rounds = Keeps-bind _ _ (set_options-Keeps opts) (λ _. Keeps-halt failure)
  run-Keeps opts (p ∷ argv) rounds = Keeps-bind _ _ (set_options-Keeps opts) (λ _.
      Keeps-bind _ _ (copy_root_dir_paths-Keeps os (p ∷ argv))
        (λ _. Keeps-bind _ _ (reinitialize-Keeps os doc true) (λ _. serve_all-Keeps rounds)))

  -- Whatever the options, the directories, the commands, the events and their interleaving, the
  -- cache is well formed and the forgotten roots are counted right, when the program stops and
  -- after each number of rounds of its main loop.
  pub run-LeavesConsistent :
      (opts : List Opt) (argv : List Bytes) (rounds : List Ready) (kernel : K)
      → LeavesConsistent (run os atoi opts argv rounds (start kernel))
  unfolding start
  run-LeavesConsistent opts argv rounds kernel =
      (run-Keeps opts argv rounds).keep (start kernel)
        (record { well_formed = record { entries = tt; distinct = tt }; ignored = refl })
