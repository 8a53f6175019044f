-- ===== src/Namespaces/Options/Described.antt =====
-- What the loop of `parse_command_options` makes of the options.
use my_notes.Common.{
  ◌+◌, ◌≤◌, ◌≡◌, inl, inr, refl, sym, ap, ◌∙◌, Bool, true, false, Bool-cases, not, ◌&&◌, ◌||◌, List,
  [], ◌∷◌, ◌++◌, append_assoc, append-nil, Option, none, some, Bytes, length, length-append, leb,
  if◌then◌else◌, arith,
}
use my_notes.Namespaces.Options.{
  CloneFlag, OptionItem, Opt, flag, uid_map_opt, gid_map_opt, projid_map_opt, root_opt, no_deny_opt,
  verbose_opt, unknown_opt, item, CmdOptions, max_opt, same_flag, is_repeatable, add_item,
  set_option, set_options,
}

abbrev pub any : (Opt → Bool) → List Opt → Bool
any p [] = false
any p (opt ∷ opts) = p opt || any p opts

abbrev pub asks_flag : CloneFlag → Opt → Bool
asks_flag f (flag g) = same_flag g f
asks_flag f _ = false

abbrev pub is_refused : Opt → Bool
is_refused unknown_opt = true
is_refused (item i) = not (is_repeatable i)
is_refused _ = false

abbrev pub is_root : Opt → Bool
is_root root_opt = true
is_root _ = false

abbrev pub is_no_deny : Opt → Bool
is_no_deny no_deny_opt = true
is_no_deny _ = false

abbrev pub is_verbose : Opt → Bool
is_verbose verbose_opt = true
is_verbose _ = false

-- The argument of the last option that `arg_of` picks, or the one before.
abbrev pub last_arg : (Opt → Option Bytes) → Option Bytes → List Opt → Option Bytes
last_arg arg_of before [] = before
last_arg arg_of before (opt ∷ opts) =
    last_arg arg_of (elim (arg_of opt) [ none ↦ before | some m ↦ some m ]) opts

abbrev pub uid_arg : Opt → Option Bytes
uid_arg (uid_map_opt m) = some m
uid_arg _ = none

abbrev pub gid_arg : Opt → Option Bytes
gid_arg (gid_map_opt m) = some m
gid_arg _ = none

abbrev pub projid_arg : Opt → Option Bytes
projid_arg (projid_map_opt m) = some m
projid_arg _ = none

abbrev pub items : List Opt → List OptionItem
items [] = []
items (item i ∷ opts) = i ∷ items opts
items (_ ∷ opts) = items opts

-- What the loop makes of `opts` when it starts with `o`.
abbrev pub described : CmdOptions → List Opt → CmdOptions
described o opts = record {
  argv = o.argv;
  flags = λ f. o.flags f || any (asks_flag f) opts;
  create_root_mappings = o.create_root_mappings || any is_root opts;
  deny_setgroups = o.deny_setgroups && not (any is_no_deny opts);
  verbose = o.verbose || any is_verbose opts;
  uid_map = last_arg uid_arg o.uid_map opts;
  gid_map = last_arg gid_arg o.gid_map opts;
  projid_map = last_arg projid_arg o.projid_map opts;
  opt_list = o.opt_list ++ items opts;
}

abbrev pub fits : CmdOptions → List Opt → Bool
fits o opts = not (any is_refused opts) && leb (length o.opt_list + length (items opts)) max_opt

abbrev pub expected : CmdOptions → List Opt → Option CmdOptions
expected o opts = if fits o opts then some (described o opts) else none

or_assoc : (a b c : Bool) → ((a || b) || c) ≡ (a || (b || c))
or_assoc true b c = refl
or_assoc false b c = refl

pub or_true : (a b : Bool) → true ≡ (a || (true || b))
or_true true b = refl
or_true false b = refl

and_false : (a b : Bool) → false ≡ (a && not (true || b))
and_false true b = refl
and_false false b = refl

pub or_false : (a : Bool) → a ≡ (a || false)
or_false true = refl
or_false false = refl

and_true : (a : Bool) → a ≡ (a && true)
and_true true = refl
and_true false = refl

described-nil : (o : CmdOptions) → o ≡ described o []
described-nil o = λ i. record {
  argv = o.argv;
  flags = λ f. or_false (o.flags f) i;
  create_root_mappings = or_false o.create_root_mappings i;
  deny_setgroups = and_true o.deny_setgroups i;
  verbose = or_false o.verbose i;
  uid_map = o.uid_map;
  gid_map = o.gid_map;
  projid_map = o.projid_map;
  opt_list = sym (append-nil o.opt_list) i;
}

described-flag :
    (o : CmdOptions) (f : CloneFlag) (opts : List Opt)
    → described (record o { flags = λ g. o.flags g || same_flag f g }) opts
      ≡ described o (flag f ∷ opts)
described-flag o f opts = λ i. record (described o (flag f ∷ opts)) {
  flags = λ g. or_assoc (o.flags g) (same_flag f g) (any (asks_flag g) opts) i;
}

described-root :
    (o : CmdOptions) (opts : List Opt)
    → described (record o { create_root_mappings = true }) opts ≡ described o (root_opt ∷ opts)
described-root o opts = λ i. record (described o (root_opt ∷ opts)) {
  create_root_mappings = or_true o.create_root_mappings (any is_root opts) i;
}

described-no_deny :
    (o : CmdOptions) (opts : List Opt)
    → described (record o { deny_setgroups = false }) opts ≡ described o (no_deny_opt ∷ opts)
described-no_deny o opts = λ i. record (described o (no_deny_opt ∷ opts)) {
  deny_setgroups = and_false o.deny_setgroups (any is_no_deny opts) i;
}

described-verbose :
    (o : CmdOptions) (opts : List Opt)
    → described (record o { verbose = true }) opts ≡ described o (verbose_opt ∷ opts)
described-verbose o opts = λ i. record (described o (verbose_opt ∷ opts)) {
  verbose = or_true o.verbose (any is_verbose opts) i;
}

described-item :
    (o : CmdOptions) (i : OptionItem) (opts : List Opt)
    → described (record o { opt_list = o.opt_list ++ i ∷ [] }) opts ≡ described o (item i ∷ opts)
described-item o it opts = λ i. record (described o (item it ∷ opts)) {
  opt_list = append_assoc o.opt_list (it ∷ []) (items opts) i;
}

chosen :
    (b : Bool) {o o' : CmdOptions}
    → o ≡ o'
    → (if b then some o else none) ≡ (if b then some o' else none)
chosen b e = ap (λ x. if b then some x else none) e

-- The loop behind an option.
abbrev resume : List Opt → Option CmdOptions → Option CmdOptions
resume opts none = none
resume opts (some o) = set_options o opts

add_item-refused : (o : CmdOptions) (i : OptionItem) → is_repeatable i ≡ false → add_item o i ≡ none
unfolding add_item
add_item-refused o i refused = rw refused refl

add_item-full :
    (o : CmdOptions) (i : OptionItem)
    → is_repeatable i ≡ true
    → leb max_opt (length o.opt_list) ≡ true
    → add_item o i ≡ none
unfolding add_item
add_item-full o i known full = rw (known, full) refl

add_item-some :
    (o : CmdOptions) (i : OptionItem)
    → is_repeatable i ≡ true
    → leb max_opt (length o.opt_list) ≡ false
    → add_item o i ≡ some (record o { opt_list = o.opt_list ++ i ∷ [] })
unfolding add_item
add_item-some o i known free = rw (known, free) refl

expected-none : (o : CmdOptions) (opts : List Opt) → fits o opts ≡ false → expected o opts ≡ none
expected-none o opts e = ap (λ b. if b then some (described o opts) else none) e

set_options-item :
    (o : CmdOptions) (i : OptionItem) (opts : List Opt)
    → set_options o (item i ∷ opts) ≡ resume opts (add_item o i)
unfolding set_options set_option
set_options-item o i opts = ground arith

pub set_options-expected :
    (o : CmdOptions) (opts : List Opt)
    → length o.opt_list ≤ max_opt
    → set_options o opts ≡ expected o opts
unfolding set_options set_option
set_options-expected o [] room =
    let fit : fits o [] ≡ true = ground arith in rw fit (ap some (described-nil o))
set_options-expected o (flag f ∷ opts) room =
    set_options-expected _ opts room ∙ chosen (fits o opts) (described-flag o f opts)
set_options-expected o (uid_map_opt m ∷ opts) room = set_options-expected _ opts room
set_options-expected o (gid_map_opt m ∷ opts) room = set_options-expected _ opts room
set_options-expected o (projid_map_opt m ∷ opts) room = set_options-expected _ opts room
set_options-expected o (root_opt ∷ opts) room =
    set_options-expected _ opts room ∙ chosen (fits o opts) (described-root o opts)
set_options-expected o (no_deny_opt ∷ opts) room =
    set_options-expected _ opts room ∙ chosen (fits o opts) (described-no_deny o opts)
set_options-expected o (verbose_opt ∷ opts) room =
    set_options-expected _ opts room ∙ chosen (fits o opts) (described-verbose o opts)
set_options-expected o (unknown_opt ∷ opts) room = refl
set_options-expected o (item i ∷ opts) room =
    set_options-item o i opts ∙ elim (Bool-cases (is_repeatable i)) [
      | inr refused ↦
          ap (resume opts) (add_item-refused o i refused)
          ∙ sym (expected-none o (item i ∷ opts) (ground (arith, refused)))
      | inl known ↦ elim (Bool-cases (leb max_opt (length o.opt_list))) [
        | inl full ↦
            ap (resume opts) (add_item-full o i known full)
            ∙ sym (expected-none o (item i ∷ opts) (ground (arith, known, full)))
        | inr free ↦
            let o1 : CmdOptions = record o { opt_list = o.opt_list ++ i ∷ [] } in
            let longer = length-append o.opt_list (i ∷ []) in
            let same : fits o1 opts ≡ fits o (item i ∷ opts) = ground arith in
            ap (resume opts) (add_item-some o i known free)
            ∙ (set_options-expected o1 opts (ground arith)
                ∙ (chosen (fits o1 opts) (described-item o i opts)
                    ∙ ap (λ b. if b then some (described o (item i ∷ opts)) else none) same))
      ]
    ]
