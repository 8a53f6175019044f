-- ===== src/Namespaces/Options.antt =====
-- namespaces/userns_child_exec.c: `parse_command_options`.
pub mod Described
pub mod Parsed
use my_notes.Common.{
  ℕ, zero, suc, Bool, true, false, not, ◌&&◌, ◌||◌, List, [], ◌∷◌, ◌++◌, Option, none, some, Bytes,
  length, is_some, leb, if◌then◌else◌,
}

-- The CLONE_NEW flags that the options -C, -i, -m, -n, -p, -u and -U stand for.
pub data CloneFlag : Type 0 where
  newcgroup newipc newns newnet newpid newuts newuser : CloneFlag

abbrev pub flag_code : CloneFlag → ℕ
flag_code newcgroup = 0
flag_code newipc = 1
flag_code newns = 2
flag_code newnet = 3
flag_code newpid = 4
flag_code newuts = 5
flag_code newuser = 6

-- `struct option_list`: the options -I, -A, -b, -s, -S, -d, -x, -X and -w with their arguments.
pub data OptionItem : Type 0 where
  inheritable ambient display : OptionItem
  securebits set_uid set_uids set_caps modify_cap wait : Bytes → OptionItem

-- What `getopt` returns, with `optarg`; the letters are those of its last argument.
pub data Opt : Type 0 where
  flag : CloneFlag → Opt
  uid_map_opt gid_map_opt projid_map_opt : Bytes → Opt
  root_opt no_deny_opt verbose_opt unknown_opt : Opt
  item : OptionItem → Opt

-- `struct cmd_options`; `flags` is a set of bits, and `opt_cnt` is the length of `opt_list`.
pub record CmdOptions : Type 0 where
  pub argv : List Bytes
  pub flags : CloneFlag → Bool
  pub create_root_mappings : Bool
  pub deny_setgroups : Bool
  pub verbose : Bool
  pub uid_map : Option Bytes
  pub gid_map : Option Bytes
  pub projid_map : Option Bytes
  pub opt_list : List OptionItem

abbrev pub max_opt : ℕ
max_opt = 100

abbrev pub defaults : CmdOptions
defaults = record {
  argv = [];
  flags = λ f. false;
  create_root_mappings = false;
  deny_setgroups = true;
  verbose = false;
  uid_map = none;
  gid_map = none;
  projid_map = none;
  opt_list = [];
}

abbrev pub same_flag : CloneFlag → CloneFlag → Bool
same_flag f g = leb (flag_code f) (flag_code g) && leb (flag_code g) (flag_code f)

-- Is there a case for the option in the switch? There is none for -S.
abbrev pub is_repeatable : OptionItem → Bool
is_repeatable (set_uids v) = false
is_repeatable inheritable = true
is_repeatable ambient = true
is_repeatable display = true
is_repeatable (securebits v) = true
is_repeatable (set_uid v) = true
is_repeatable (set_caps v) = true
is_repeatable (modify_cap v) = true
is_repeatable (wait v) = true

unfoldable pub add_item : CmdOptions → OptionItem → Option CmdOptions
add_item o i =
    if not (is_repeatable i)
    then none
    else if leb max_opt (length o.opt_list)
    then none
    else some (record o { opt_list = o.opt_list ++ i ∷ [] })

-- The switch; `none` is an exit.
unfoldable pub set_option : CmdOptions → Opt → Option CmdOptions
set_option o (flag f) = some (record o { flags = λ g. o.flags g || same_flag f g })
set_option o (uid_map_opt m) = some (record o { uid_map = some m })
set_option o (gid_map_opt m) = some (record o { gid_map = some m })
set_option o (projid_map_opt m) = some (record o { projid_map = some m })
set_option o root_opt = some (record o { create_root_mappings = true })
set_option o no_deny_opt = some (record o { deny_setgroups = false })
set_option o verbose_opt = some (record o { verbose = true })
set_option o unknown_opt = none
set_option o (item i) = add_item o i

unfoldable pub set_options : CmdOptions → List Opt → Option CmdOptions
set_options o [] = some o
set_options o (opt ∷ opts) = elim (set_option o opt) [ none ↦ none | some o' ↦ set_options o' opts ]

-- The checks behind the loop; `args` are the arguments from `optind` on.
unfoldable pub check_options : CmdOptions → List Bytes → Option CmdOptions
check_options o args =
    let ids = is_some o.uid_map || is_some o.gid_map in
    if ((ids || is_some o.projid_map || o.create_root_mappings) && not (o.flags newuser))
      || (o.create_root_mappings && ids)
    then none
    else elim args [ [] ↦ none | arg ∷ rest ↦ some (record o { argv = arg ∷ rest }) ]

unfoldable pub parse_command_options : List Opt → List Bytes → Option CmdOptions
parse_command_options opts args = elim (set_options defaults opts) [
  | none ↦ none
  | some o ↦ check_options o args
]
