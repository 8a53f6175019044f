-- ===== src/Namespaces/Maps/Files.antt =====
-- What the updates of the map files rely on of the system calls.
use my_notes.Common.{
  ℕ, ◌≡◌, ◌≢◌, Bool, true, false, List, [], ◌∷◌, ◌++◌, none, some, Bytes, codes, length,
}
use my_notes.Namespaces.Maps.{opened, enoent, Os, proc_path}

-- The successful writes, in order: the pathname and the text.
abbrev pub Journal : Type 0
Journal = List (Bytes × Bytes)

-- The files of the process `child_pid` in /proc take the text of a `write` whole or not at all, and
-- `setgroups` is there if the kernel knows it.
pub record IsDocumented {K : Type 0} (os : Os K) (journal : K → Journal) (child_pid : ℕ)
    (has_setgroups : Bool) : Type 0 where
  pub refers_to : K → ℕ → Bytes
  pub opens :
      (k : K) (path : Bytes) (fd : ℕ)
      → (os.open_file k path).0 ≡ opened fd
      → refers_to (os.open_file k path).1 fd ≡ path
  pub open_journal : (k : K) (path : Bytes) → journal (os.open_file k path).1 ≡ journal k
  pub writes :
      (k : K) (fd : ℕ) (text : Bytes) (n : ℕ)
      → (os.write k fd text).0 ≡ some n
      → (n ≡ length text)
        × (journal (os.write k fd text).1 ≡ journal k ++ (refers_to k fd, text) ∷ [])
  pub write_error :
      (k : K) (fd : ℕ) (text : Bytes)
      → (os.write k fd text).0 ≡ none
      → journal (os.write k fd text).1 ≡ journal k
  pub close_journal : (k : K) (fd : ℕ) → journal (os.close k fd) ≡ journal k
  pub no_setgroups :
      (k : K)
      → has_setgroups ≡ false
      → (os.open_file k (proc_path os child_pid (codes "/setgroups"))).0 ≡ enoent
  pub setgroups :
      (k : K)
      → has_setgroups ≡ true
      → (os.open_file k (proc_path os child_pid (codes "/setgroups"))).0 ≢ enoent
