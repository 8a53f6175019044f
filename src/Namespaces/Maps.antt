-- ===== src/Namespaces/Maps.antt =====
-- namespaces/userns_functions.c, `update_map` and `proc_setgroups_write`, and `update_child_maps` of
-- namespaces/userns_child_exec.c.
pub mod Files
pub mod Written
use my_notes.Common.{
  ℕ, Bool, true, false, List, [], ◌∷◌, ◌++◌, map, Option, none, some, Bytes, codes, length, ◌==◌,
  if◌then◌else◌,
}
use my_notes.Namespaces.Options.{CmdOptions}

-- A result of `open`: a descriptor, -1 with ENOENT, or -1 with another error.
pub data Open : Type 0 where
  opened : ℕ → Open
  enoent : Open
  open_error : Open

-- The calls on files, where `none` is a result -1 of `write`; and `%ld` of `snprintf`, whose texts are
-- short enough for the buffers.
pub record Os (K : Type 0) : Type 0 where
  pub open_file : K → Bytes → Open × K
  pub write : K → ℕ → Bytes → Option ℕ × K
  pub close : K → ℕ → K
  pub decimal : ℕ → Bytes

abbrev pub to_newline : ℕ → ℕ
to_newline c = if c == b',' then b'\n' else c

abbrev pub is_whole : Bytes → Option ℕ → Bool
is_whole text none = false
is_whole text (some n) = n == length text

abbrev pub no_error : Option ℕ → Bool
no_error none = false
no_error (some n) = true

-- The next step is taken unless the program has exited: `true` is 0, `false` is -1.
abbrev pub and_then : {K : Type 0} → Bool × K → (K → Bool × K) → Bool × K
and_then (true, k) next = next k
and_then (false, k) next = (false, k)

module _ {K : Type 0} (os : Os K) where
  -- The call of `write` on an open descriptor and what follows it.
  unfoldable pub write_close : (Option ℕ → Bool) → K → ℕ → Bytes → Bool × K
  write_close test k fd text = let w = os.write k fd text in (test w.0, os.close w.1 fd)

  unfoldable pub update_map : K → Bytes → Bytes → Bool × K
  update_map k mapping map_file =
      let lines = map to_newline mapping in
      let r = os.open_file k map_file in
      elim r.0 [
        | opened fd ↦ write_close (is_whole lines) r.1 fd lines
        | enoent ↦ (false, r.1)
        | open_error ↦ (false, r.1)
      ]

  abbrev pub proc_path : ℕ → Bytes → Bytes
  proc_path pid name = codes "/proc/" ++ (os.decimal pid ++ name)

  unfoldable pub proc_setgroups_write : K → ℕ → Bytes → Bool × K
  proc_setgroups_write k child_pid str =
      let r = os.open_file k (proc_path child_pid (codes "/setgroups")) in
      elim r.0 [
        | opened fd ↦ write_close no_error r.1 fd str
        | enoent ↦ (true, r.1)
        | open_error ↦ (false, r.1)
      ]

  -- The map that -r stands for.
  abbrev pub root_map : ℕ → Bytes
  root_map id = codes "0 " ++ (os.decimal id ++ codes " 1")

  -- The text of a map, where there is one.
  abbrev pub map_text : Bool → Option Bytes → ℕ → Option Bytes
  map_text create_root_mappings text id = if create_root_mappings then some (root_map id) else text

  unfoldable pub update_given : K → Option Bytes → Bytes → Bool × K
  update_given k none map_path = (true, k)
  update_given k (some text) map_path = update_map k text map_path

  unfoldable pub update_gid_map : Bool → K → ℕ → Option Bytes → Bool × K
  update_gid_map deny_setgroups k child_pid none = (true, k)
  update_gid_map deny_setgroups k child_pid (some text) =
      and_then
        (if deny_setgroups then proc_setgroups_write k child_pid (codes "deny") else (true, k))
        (λ k. update_map k text (proc_path child_pid (codes "/gid_map")))

  -- `uid` and `gid` are what `getuid` and `getgid` return.
  unfoldable pub update_child_maps : ℕ → ℕ → CmdOptions → K → ℕ → Bool × K
  update_child_maps uid gid opts k child_pid =
      and_then
        (update_given k (map_text opts.create_root_mappings opts.uid_map uid)
          (proc_path child_pid (codes "/uid_map")))
        (λ k.
          and_then
            (update_gid_map opts.deny_setgroups k child_pid
              (map_text opts.create_root_mappings opts.gid_map gid))
            (λ k. update_given k opts.projid_map (proc_path child_pid (codes "/projid_map"))))
