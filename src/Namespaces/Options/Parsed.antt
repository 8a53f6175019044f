-- ===== src/Namespaces/Options/Parsed.antt =====
-- Which command lines `parse_command_options` accepts, and what it makes of them.
use my_notes.Common.{
  ◌≡◌, inl, inr, refl, sym, ap, ◌∙◌, Bool, true, false, Option-cases, not, ◌&&◌, ◌||◌, List, [],
  ◌∷◌, Option, none, some, Bytes, length, is_some, leb, if◌then◌else◌, arith,
}
use my_notes.Namespaces.Options.{
  newuser, Opt, CmdOptions, max_opt, defaults, set_options, check_options, parse_command_options,
}
use my_notes.Namespaces.Options.Described.{
  any, asks_flag, is_refused, is_root, last_arg, uid_arg, gid_arg, projid_arg, items, described,
  fits, or_true, or_false, set_options-expected,
}

is_some-last_arg :
    (arg_of : Opt → Option Bytes) (before : Option Bytes) (opts : List Opt)
    → is_some (last_arg arg_of before opts) ≡ (is_some before || any (λ o. is_some (arg_of o)) opts)
is_some-last_arg arg_of before [] = or_false (is_some before)
is_some-last_arg arg_of before (opt ∷ opts) = elim (Option-cases (arg_of opt)) [
  | inl e ↦ rw e (is_some-last_arg arg_of before opts)
  | inr (m, e) ↦ rw e (
      is_some-last_arg arg_of (some m) opts
      ∙ or_true (is_some before) (any (λ o. is_some (arg_of o)) opts))
]

abbrev pub gives_map : Opt → Bool
gives_map opt = is_some (uid_arg opt) || is_some (gid_arg opt)

abbrev pub needs_userns : Opt → Bool
needs_userns opt = gives_map opt || is_some (projid_arg opt) || is_root opt

abbrev pub is_empty : List Bytes → Bool
is_empty [] = true
is_empty (arg ∷ args) = false

abbrev pub acceptable : List Opt → List Bytes → Bool
acceptable opts args =
    not (any is_refused opts)
    && (leb (length (items opts)) max_opt
        && ((not (any needs_userns opts) || any (asks_flag newuser) opts)
            && (not (any is_root opts && any gives_map opts) && not (is_empty args))))

any-or :
    (p q : Opt → Bool) (opts : List Opt) → any (λ o. p o || q o) opts ≡ (any p opts || any q opts)
any-or p q [] = refl
any-or p q (opt ∷ opts) = ground (arith, any-or p q opts)

-- The test of the first check.
abbrev clashes : CmdOptions → Bool
clashes o =
    let ids = is_some o.uid_map || is_some o.gid_map in
    ((ids || is_some o.projid_map || o.create_root_mappings) && not (o.flags newuser))
    || (o.create_root_mappings && ids)

abbrev clashing : List Opt → Bool
clashing opts =
    (any needs_userns opts && not (any (asks_flag newuser) opts))
    || (any is_root opts && any gives_map opts)

clashes-described : (opts : List Opt) → clashes (described defaults opts) ≡ clashing opts
clashes-described opts =
    let gives = any-or (λ o. is_some (uid_arg o)) (λ o. is_some (gid_arg o)) opts in
    let gives3 = any-or gives_map (λ o. is_some (projid_arg o)) opts in
    let gives4 = any-or (λ o. gives_map o || is_some (projid_arg o)) is_root opts in
    rw
      (
        is_some-last_arg uid_arg none opts,
        is_some-last_arg gid_arg none opts,
        is_some-last_arg projid_arg none opts,
        gives4,
        gives3,
        gives,
      )
      refl

abbrev given : CmdOptions → List Bytes → Option CmdOptions
given o args = if is_empty args then none else some (record o { argv = args })

check_options-given :
    (o : CmdOptions) (args : List Bytes)
    → check_options o args ≡ (if clashes o then none else given o args)
unfolding check_options
check_options-given o [] = ground arith
check_options-given o (arg ∷ args) = ground arith

acceptable_lem :
    (opts : List Opt) (args : List Bytes)
    → acceptable opts args ≡ (fits defaults opts && (not (clashing opts) && not (is_empty args)))
acceptable_lem opts args = ground arith

choose_lem :
    (fit clash empty : Bool) (o : CmdOptions)
    → (if fit && (not clash && not empty) then some o else none)
      ≡ (if fit then (if clash then none else (if empty then none else some o)) else none)
choose_lem true true empty o = refl
choose_lem true false true o = refl
choose_lem true false false o = refl
choose_lem false clash empty o = refl

checked : List Bytes → Option CmdOptions → Option CmdOptions
checked args none = none
checked args (some o) = check_options o args

checked-expected :
    (fit : Bool) (o : CmdOptions) (args : List Bytes)
    → checked args (if fit then some o else none) ≡ (if fit then check_options o args else none)
unfolding checked
checked-expected true o args = refl
checked-expected false o args = refl

parse_command_options-checked :
    (opts : List Opt) (args : List Bytes)
    → parse_command_options opts args ≡ checked args (set_options defaults opts)
unfolding parse_command_options checked
parse_command_options-checked opts args = ground arith

-- A command line is accepted exactly if every option has a case in the switch, at most 100 of them are
-- repeatable, -U stands among them if -M, -G, -P or -r does, -r does not stand with -M or -G, and
-- there is a command. Then each flag and switch is set exactly if its option is there, each map is
-- the argument of the last option for it, and the repeatable options are listed in order.
pub parse_command_options_lem :
    (opts : List Opt) (args : List Bytes)
    → parse_command_options opts args ≡ (
        if acceptable opts args
        then some (record (described defaults opts) { argv = args })
        else none)
parse_command_options_lem opts args =
    let d = described defaults opts in
    let fit = fits defaults opts in
    parse_command_options-checked opts args
    ∙ (ap (checked args) (set_options-expected defaults opts (omega arith))
        ∙ (checked-expected fit d args
            ∙ (ap (λ r. if fit then r else none) (check_options-given d args)
                ∙ (ap (λ c. if fit then (if c then none else given d args) else none)
                      (clashes-described opts)
                    ∙ (sym (
                          choose_lem fit (clashing opts) (is_empty args) (record d { argv = args }))
                        ∙ ap (λ b. if b then some (record d { argv = args }) else none)
                            (sym (acceptable_lem opts args)))))))
