-- ===== src/Namespaces/Maps/Written.antt =====
-- What `update_child_maps` writes to the map files.
use mathlib.Core.Path.{subst}
use my_notes.Common.{
  ℕ, ◌≡◌, ◌≢◌, refl, sym, ap, ◌∙◌, Bool, true, false, Bool-cases, Option-cases, inl, inr, ◌&&◌, [],
  ◌∷◌, ◌++◌, append_assoc, append-nil, map, Option, none, some, Bytes, codes, length, if◌then◌else◌,
  arith,
}
use my_notes.Namespaces.Options.{CmdOptions}
use my_notes.Namespaces.Maps.{
  Open, opened, enoent, open_error, Os, to_newline, is_whole, no_error, and_then, write_close,
  update_map, proc_path, proc_setgroups_write, map_text, update_given, update_gid_map,
  update_child_maps,
}
use my_notes.Namespaces.Maps.Files.{Journal, IsDocumented}

-- The text for a file, where there is one.
abbrev pub entry : Bytes → Option Bytes → Journal
entry path none = []
entry path (some text) = (path, map to_newline text) ∷ []

-- Writing "deny" goes before the map of the group IDs.
abbrev pub gid_entries : Bool → Bytes → Bytes → Option Bytes → Journal
gid_entries deny setgroups_path path none = []
gid_entries deny setgroups_path path (some text) =
    (if deny then (setgroups_path, codes "deny") ∷ [] else []) ++ entry path (some text)

module _ {K : Type 0} (os : Os K) (journal : K → Journal) (child_pid : ℕ) (has_setgroups : Bool)
    (doc : IsDocumented os journal child_pid has_setgroups) where
  -- All that was to be written has been written, or a first part of it and the program has exited.
  abbrev pub Writes : Journal → K → Bool × K → Type 0
  Writes ws k (true, k') = journal k' ≡ journal k ++ ws
  Writes ws k (false, k') =
      (done : Journal) × (rest : Journal) × (ws ≡ done ++ rest)
      × (rest ≢ [])
      × (journal k' ≡ journal k ++ done)

  Writes-nil : (k : K) → Writes [] k (true, k)
  Writes-nil k = sym (append-nil (journal k))

  Writes-later :
      (ws vs : Journal) (k k1 : K) (r : Bool × K)
      → journal k1 ≡ journal k ++ ws
      → Writes vs k1 r
      → Writes (ws ++ vs) k r
  Writes-later ws vs k k1 (true, k2) j h =
      h ∙ (ap (λ l. l ++ vs) j ∙ append_assoc (journal k) ws vs)
  Writes-later ws vs k k1 (false, k2) j (done, rest, e, more, j') = (
    ws ++ done,
    rest,
    ap (λ l. ws ++ l) e ∙ sym (append_assoc ws done rest),
    more,
    j' ∙ (ap (λ l. l ++ done) j ∙ append_assoc (journal k) ws done),
  )

  append-ne-nil : (rest vs : Journal) → rest ≢ [] → rest ++ vs ≢ []
  append-ne-nil [] vs ne = λ e. ne refl
  append-ne-nil (x ∷ rest) vs ne = λ e. cc

  Writes-and_then :
      (ws vs : Journal) (k : K) (r : Bool × K) (next : K → Bool × K)
      → Writes ws k r
      → ((k' : K) → Writes vs k' (next k'))
      → Writes (ws ++ vs) k (and_then r next)
  Writes-and_then ws vs k (true, k1) next h later = Writes-later ws vs k k1 (next k1) h (later k1)
  Writes-and_then ws vs k (false, k1) next (done, rest, e, more, j) later = (
    done,
    rest ++ vs,
    ap (λ l. l ++ vs) e ∙ append_assoc done rest vs,
    append-ne-nil rest vs more,
    j,
  )

  cons-ne-nil : (x : Bytes × Bytes) (xs : Journal) → x ∷ xs ≢ []
  cons-ne-nil x xs = λ e. cc

  -- An exit before the first write.
  Writes-none :
      (x : Bytes × Bytes) (ws : Journal) (k k' : K)
      → journal k' ≡ journal k
      → Writes (x ∷ ws) k (false, k')
  Writes-none x ws k k' j = ([], x ∷ ws, refl, cons-ne-nil x ws, j ∙ sym (append-nil (journal k)))

  write_close-Writes :
      (test : Option ℕ → Bool) (k k1 : K) (path : Bytes) (fd : ℕ) (text : Bytes)
      → journal k1 ≡ journal k
      → doc.refers_to k1 fd ≡ path
      → test (some (length text)) ≡ true
      → test none ≡ false
      → Writes ((path, text) ∷ []) k (write_close os test k1 fd text)
  unfolding write_close
  write_close-Writes test k k1 path fd text j refers whole bad =
      let k2 = (os.write k1 fd text).1 in
      let closed = doc.close_journal k2 fd in
      elim (Option-cases (os.write k1 fd text).0) [
        | inl e ↦
            rw (write_close, e, bad)
              (Writes-none (path, text) [] k (os.close k2 fd)
                (closed ∙ (doc.write_error k1 fd text e ∙ j)))
        | inr (n, e) ↦
            let (all, wrote) = doc.writes k1 fd text n e in
            rw (write_close, e, all, whole)
              (closed
                ∙ (wrote
                    ∙ (ap (λ p. journal k1 ++ (p, text) ∷ []) refers
                        ∙ ap (λ l. l ++ (path, text) ∷ []) j)))
      ]

  is_whole-length : (text : Bytes) → is_whole text (some (length text)) ≡ true
  is_whole-length text = ground arith

  update_map-Writes :
      (k : K) (mapping path : Bytes)
      → Writes ((path, map to_newline mapping) ∷ []) k (update_map os k mapping path)
  unfolding update_map
  update_map-Writes k mapping path = go (os.open_file k path).0 refl
    where
      go :
          (o : Open)
          → (os.open_file k path).0 ≡ o
          → Writes ((path, map to_newline mapping) ∷ []) k (update_map os k mapping path)
      go (opened fd) e =
          rw (update_map, e)
            (write_close-Writes (is_whole (map to_newline mapping)) k (os.open_file k path).1 path
              fd (map to_newline mapping) (doc.open_journal k path) (doc.opens k path fd e)
              (is_whole-length (map to_newline mapping)) refl)
      go enoent e =
          rw (update_map, e)
            (Writes-none (path, map to_newline mapping) [] k _ (doc.open_journal k path))
      go open_error e =
          rw (update_map, e)
            (Writes-none (path, map to_newline mapping) [] k _ (doc.open_journal k path))

  update_given-Writes :
      (k : K) (text : Option Bytes) (path : Bytes)
      → Writes (entry path text) k (update_given os k text path)
  unfolding update_given
  update_given-Writes k none path = Writes-nil k
  update_given-Writes k (some text) path = update_map-Writes k text path

  abbrev pub setgroups_path : Bytes
  setgroups_path = proc_path os child_pid (codes "/setgroups")

  abbrev denial : Bool → Journal
  denial b = if b then (setgroups_path, codes "deny") ∷ [] else []

  denial-Writes :
      (k : K) → Writes (denial has_setgroups) k (proc_setgroups_write os k child_pid (codes "deny"))
  unfolding proc_setgroups_write
  denial-Writes k = elim (Bool-cases has_setgroups) [
    | inl there ↦
        subst (λ b. Writes (denial b) k written) (sym there)
          (go (os.open_file k setgroups_path).0 refl there)
    | inr missing ↦
        let absent = doc.no_setgroups k missing in
        subst (λ b. Writes (denial b) k written) (sym missing)
          (rw (proc_setgroups_write, absent)
            (doc.open_journal k setgroups_path ∙ sym (append-nil (journal k))))
  ]
    where
      written : Bool × K
      written = proc_setgroups_write os k child_pid (codes "deny")

      go :
          (o : Open)
          → (os.open_file k setgroups_path).0 ≡ o
          → has_setgroups ≡ true
          → Writes (denial true) k (proc_setgroups_write os k child_pid (codes "deny"))
      go (opened fd) e there =
          rw (proc_setgroups_write, e)
            (write_close-Writes no_error k (os.open_file k setgroups_path).1 setgroups_path fd
              (codes "deny") (doc.open_journal k setgroups_path) (doc.opens k setgroups_path fd e)
              refl refl)
      go enoent e there = absurd (doc.setgroups k there e)
      go open_error e there =
          rw (proc_setgroups_write, e)
            (Writes-none (setgroups_path, codes "deny") [] k _ (doc.open_journal k setgroups_path))

  update_gid_map-Writes :
      (deny : Bool) (k : K) (text : Option Bytes)
      → Writes
          (gid_entries
            (deny && has_setgroups)
            setgroups_path
            (proc_path os child_pid (codes "/gid_map"))
            text)
          k
          (update_gid_map os deny k child_pid text)
  unfolding update_gid_map
  update_gid_map-Writes deny k none = Writes-nil k
  update_gid_map-Writes true k (some text) =
      Writes-and_then (denial has_setgroups) _ k
        (proc_setgroups_write os k child_pid (codes "deny"))
        (λ k'. update_map os k' text (proc_path os child_pid (codes "/gid_map"))) (denial-Writes k)
        (λ k'. update_map-Writes k' text (proc_path os child_pid (codes "/gid_map")))
  update_gid_map-Writes false k (some text) =
      update_map-Writes k text (proc_path os child_pid (codes "/gid_map"))

  -- What the options ask for: -r stands for maps of the caller's own IDs to 0.
  abbrev pub wanted : ℕ → ℕ → CmdOptions → Journal
  wanted uid gid opts =
      entry (proc_path os child_pid (codes "/uid_map"))
        (map_text os opts.create_root_mappings opts.uid_map uid)
      ++ (gid_entries (opts.deny_setgroups && has_setgroups) setgroups_path
            (proc_path os child_pid (codes "/gid_map"))
            (map_text os opts.create_root_mappings opts.gid_map gid)
          ++ entry (proc_path os child_pid (codes "/projid_map")) opts.projid_map)

  -- The program writes the wanted maps with newlines for commas, the user IDs before the group IDs and
  -- these before the project IDs, and "deny" to `setgroups` before the group IDs unless -D is given
  -- or the kernel has no such file. Where one of the writes fails, it exits, and has written those
  -- before it and none behind it.
  pub update_child_maps-Writes :
      (uid gid : ℕ) (opts : CmdOptions) (k : K)
      → Writes (wanted uid gid opts) k (update_child_maps os uid gid opts k child_pid)
  unfolding update_child_maps
  update_child_maps-Writes uid gid opts k =
      let uids = map_text os opts.create_root_mappings opts.uid_map uid in
      let gids = map_text os opts.create_root_mappings opts.gid_map gid in
      Writes-and_then _ _ k _ _
        (update_given-Writes k uids (proc_path os child_pid (codes "/uid_map")))
        (λ k1. Writes-and_then _ _ k1 _ _ (update_gid_map-Writes opts.deny_setgroups k1 gids) (λ k2.
          update_given-Writes k2 opts.projid_map (proc_path os child_pid (codes "/projid_map"))))
