-- ===== src/Acl/Program.antt =====
-- `main` of acl/acl_update.c.
use my_notes.Common.{
  ℕ, ◌+◌, Bool, true, false, not, ◌&&◌, List, [], ◌∷◌, Option, none, some, Bytes, ◌==◌,
  if◌then◌else◌,
}
use my_notes.Acl.Ids.{Libc}
use my_notes.Acl.Spec.{AccessControlEntry, bad, ok, parse_acl}
use my_notes.Acl.Update.{
  AclLib, Operation, modify_entries, remove_entries, exits, updated, update_acl,
}

-- What `getopt` returns, with `optarg`.
pub data Opt : Type 0 where
  m_opt : Bytes → Opt
  x_opt : Bytes → Opt
  k_opt : Opt
  d_opt : Opt
  n_opt : Opt
  v_opt : Bytes → Opt
  unknown_opt : Opt

-- `enum Operation`, with `aclSpec` where it is set
pub data Request : Type 0 where
  unspecified : Request
  modify : Bytes → Request
  remove : Bytes → Request
  remove_default : Request
  check : Bytes → Request

pub record Options : Type 0 where
  pub operation : Request
  pub recalc_mask : Bool
  pub use_default_acl : Bool
  pub opt_cnt : ℕ

abbrev pub defaults : Options
defaults = record {
  operation = unspecified;
  recalc_mask = true;
  use_default_acl = false;
  opt_cnt = 0;
}

abbrev request : Request → Options → Options
request r o = record o { operation = r; opt_cnt = o.opt_cnt + 1 }

-- `none` is an exit with a usage message.
set_option : Options → Opt → Option Options
set_option o (m_opt acl) = some (request (modify acl) o)
set_option o (x_opt acl) = some (request (remove acl) o)
set_option o k_opt = some (request remove_default o)
set_option o (v_opt acl) = some (request (check acl) o)
set_option o d_opt = some (record o { use_default_acl = true })
set_option o n_opt = some (record o { recalc_mask = false })
set_option o unknown_opt = none

set_options : List Opt → Options → Option Options
set_options [] o = some o
set_options (opt ∷ opts) o = elim (set_option o opt) [ none ↦ none | some o' ↦ set_options opts o' ]

is_check : Request → Bool
is_check unspecified = false
is_check (modify acl) = false
is_check (remove acl) = false
is_check remove_default = false
is_check (check acl) = true

-- The checks behind the loop over the options.
check_options : Options → Option Options
check_options o =
    if not (o.opt_cnt == 1)
    then none
    else if is_check o.operation && o.use_default_acl
    then none
    else some o

pub parse_options : List Opt → Option Options
parse_options opts = elim (set_options opts defaults) [ none ↦ none | some o ↦ check_options o ]

-- How the program ends: with failure or with success, and the state of the files.
pub data Exit (K : Type 0) : Type 0 where
  failure : K → Exit K
  success : K → Exit K

module _ {A K : Type 0} (libc : Libc) (lib : AclLib A K) where
  -- The loop over the files.
  update_files : Operation → Options → List AccessControlEntry → List Bytes → K → Exit K
  update_files operation o es [] k = success k
  update_files operation o es (file ∷ files) k =
      elim (update_acl lib file o.use_default_acl es operation o.recalc_mask k) [
        | exits k' ↦ failure k'
        | updated acl k' ↦ update_files operation o es files k'
      ]

  delete_defaults : List Bytes → K → Exit K
  delete_defaults [] k = success k
  delete_defaults (file ∷ files) k = elim (lib.delete_def_file k file) [
    | none ↦ failure k
    | some k' ↦ delete_defaults files k'
  ]

  -- `unspecified` is left where `optCnt` is 0, which is refused before.
  run_request : Request → Options → List Bytes → K → Exit K
  run_request unspecified o files k = elim files [ [] ↦ success k | file ∷ rest ↦ failure k ]
  run_request (check acl) o files k = elim (parse_acl libc true acl) [
    | bad e ↦ failure k
    | ok es ↦ success k
  ]
  run_request (modify acl) o files k = elim (parse_acl libc true acl) [
    | bad e ↦ failure k
    | ok es ↦ update_files modify_entries o es files k
  ]
  run_request (remove acl) o files k = elim (parse_acl libc false acl) [
    | bad e ↦ failure k
    | ok es ↦ update_files remove_entries o es files k
  ]
  run_request remove_default o files k = delete_defaults files k

  pub run : List Opt → List Bytes → K → Exit K
  run opts files k = elim (parse_options opts) [
    | none ↦ failure k
    | some o ↦ run_request o.operation o files k
  ]
