-- ===== src/Namespaces/Capable.antt =====
-- namespaces/ns_capable.c: what capabilities a process has in a namespace.
pub mod Kernel
pub mod Ancestors
pub mod Decision
use my_notes.Common.{
  ℕ, zero, suc, Bool, true, false, ◌&&◌, List, [], ◌∷◌, Option, none, some, Bytes, codes,
  starts_with, leb, ◌==◌, if◌then◌else◌,
}

-- The results of an `ioctl` with NS_GET_PARENT: a descriptor, -1 with EPERM, or -1 with another error.
pub data Parent : Type 0 where
  opened : ℕ → Parent
  eperm : Parent
  other_error : Parent

-- The system calls, over a state of the kernel; `none` is a failure. `fstat` gives the device and the
-- i-node number.
pub record Os (K : Type 0) : Type 0 where
  pub open_file : K → Bytes → Option ℕ × K
  pub open_pid_userns : K → ℕ → Option ℕ × K
  pub fstat : K → ℕ → Option (ℕ × ℕ)
  pub is_userns : K → ℕ → Option Bool
  pub get_userns : K → ℕ → Option ℕ × K
  pub get_parent : K → ℕ → Parent × K
  pub get_owner_uid : K → ℕ → Option ℕ
  pub close : K → ℕ → Bool × K
  pub status_lines : K → ℕ → Option (List Bytes)

-- The C library: `atoi`, and the second number that `sscanf` reads from a line of /proc/PID/status.
pub record Libc : Type 0 where
  pub atoi : Bytes → ℕ
  pub scan_uid : Bytes → ℕ

-- The loop over the lines; `none` is an exit at their end.
unfoldable pub scan_status : Libc → List Bytes → Option ℕ
scan_status libc [] = none
scan_status libc (line ∷ lines) =
    let later = scan_status libc lines in
    if starts_with (codes "Uid:") line then some (libc.scan_uid line) else later

pub same_file : ℕ × ℕ → ℕ × ℕ → Bool
same_file (dev1, ino1) (dev2, ino2) = (dev1 == dev2) && (ino1 == ino2)

-- What `is_ancestor_userns` comes to: an exit, -1, or a descriptor. `searching` is a loop that has used up
-- its turns.
pub data Search (K : Type 0) : Type 0 where
  exits : Search K
  not_ancestor : K → Search K
  descendant : ℕ → K → Search K
  searching : Search K

-- What the program reports of the process.
pub data Verdict : Type 0 where
  in_namespace : Verdict
  no_capabilities : Verdict
  all_capabilities : Verdict
  own_capabilities : Verdict

pub data Report (K : Type 0) : Type 0 where
  fails : Report K
  reports : Verdict → K → Report K

module _ {K : Type 0} (os : Os K) where
  unfoldable pub euid_of_process : Libc → K → ℕ → Option ℕ
  euid_of_process libc k pid = elim (os.status_lines k pid) [
    | none ↦ none
    | some lines ↦ scan_status libc lines
  ]

  pub ns_equal : K → ℕ → ℕ → Option Bool
  ns_equal k nsfd1 nsfd2 = elim (os.fstat k nsfd1) [
    | none ↦ none
    | some sb1 ↦ elim (os.fstat k nsfd2) [ none ↦ none | some sb2 ↦ some (same_file sb1 sb2) ]
  ]

  -- `close` with an exit if it fails.
  pub close_or_exit : K → ℕ → Option K
  close_or_exit k fd = let r = os.close k fd in if r.0 then some r.1 else none

  -- A descriptor that the loop opened is closed; the caller's is not.
  pub close_opened : K → ℕ → ℕ → Option K
  close_opened k child target_userns =
      if child == target_userns then some k else close_or_exit k child

  -- The loop, for at most so many turns.
  pub find_ancestor : ℕ → K → ℕ → ℕ → ℕ → Search K
  find_ancestor zero k source_userns target_userns child = searching
  find_ancestor (suc turns) k source_userns target_userns child =
      let r = os.get_parent k child in
      elim r.0 [
        | other_error ↦ exits
        | eperm ↦ elim (close_opened r.1 child target_userns) [
          | none ↦ exits
          | some k' ↦ not_ancestor k'
        ]
        | opened parent ↦ elim (ns_equal r.1 parent source_userns) [
          | none ↦ exits
          | some true ↦ elim (close_or_exit r.1 parent) [
            | none ↦ exits
            | some k' ↦ descendant child k'
          ]
          | some false ↦ elim (close_opened r.1 child target_userns) [
            | none ↦ exits
            | some k' ↦ find_ancestor turns k' source_userns target_userns parent
          ]
        ]
      ]

  pub is_ancestor_userns : ℕ → K → ℕ → ℕ → Search K
  is_ancestor_userns turns k source_userns target_userns =
      find_ancestor turns k source_userns target_userns target_userns

  -- The end of `main`.
  pub close_both : Verdict → K → ℕ → ℕ → Report K
  close_both v k source_userns target_userns = elim (close_or_exit k target_userns) [
    | none ↦ fails
    | some k1 ↦ elim (close_or_exit k1 source_userns) [ none ↦ fails | some k2 ↦ reports v k2 ]
  ]

  -- The source process is in an ancestor namespace, above the one of `child_userns`.
  pub compare_owner : Libc → K → ℕ → ℕ → ℕ → ℕ → Report K
  compare_owner libc k pid source_userns target_userns child_userns =
      elim (euid_of_process libc k pid) [
        | none ↦ fails
        | some euid ↦ elim (os.get_owner_uid k child_userns) [
          | none ↦ fails
          | some uid ↦ elim (close_opened k child_userns target_userns) [
            | none ↦ fails
            | some k' ↦
                close_both (if euid == uid then all_capabilities else own_capabilities) k'
                  source_userns target_userns
          ]
        ]
      ]

  -- `main` behind the search.
  pub after_search : Libc → ℕ → ℕ → ℕ → Search K → Report K
  after_search libc pid source_userns target_userns exits = fails
  after_search libc pid source_userns target_userns searching = fails
  after_search libc pid source_userns target_userns (not_ancestor k) =
      close_both no_capabilities k source_userns target_userns
  after_search libc pid source_userns target_userns (descendant child_userns k) =
      compare_owner libc k pid source_userns target_userns child_userns

  -- `main` once both descriptors are open. Displaying capabilities succeeds.
  pub decide : Libc → ℕ → K → ℕ → ℕ → ℕ → Report K
  decide libc turns k pid source_userns target_userns =
      elim (ns_equal k source_userns target_userns) [
        | none ↦ fails
        | some true ↦ close_both in_namespace k source_userns target_userns
        | some false ↦
            after_search libc pid source_userns target_userns
              (is_ancestor_userns turns k source_userns target_userns)
      ]

  is_digit : ℕ → Bool
  is_digit c = leb 48 c && leb c 57

  -- A namespace that is no user namespace is replaced by the one that owns it.
  owning_userns : K → ℕ → Option (ℕ × K)
  owning_userns k ns = elim (os.is_userns k ns) [
    | none ↦ none
    | some true ↦ some (ns, k)
    | some false ↦
        let r = os.get_userns k ns in
        elim r.0 [
          | none ↦ none
          | some userns ↦ elim (close_or_exit r.1 ns) [ none ↦ none | some k' ↦ some (userns, k') ]
        ]
  ]

  from_opened : Option ℕ × K → Option (ℕ × K)
  from_opened (none, k) = none
  from_opened (some fd, k) = some (fd, k)

  userns_from_pid : K → ℕ → Option (ℕ × K)
  userns_from_pid k pid = from_opened (os.open_pid_userns k pid)

  open_ns : Option (ℕ × K) → Option (ℕ × K)
  open_ns none = none
  open_ns (some (ns, k)) = owning_userns k ns

  pub get_userns_from : Libc → K → Bytes → Option (ℕ × K)
  get_userns_from libc k [] = open_ns (from_opened (os.open_file k []))
  get_userns_from libc k (c ∷ arg) =
      if is_digit c
      then userns_from_pid k (libc.atoi (c ∷ arg))
      else open_ns (from_opened (os.open_file k (c ∷ arg)))

  -- `main` with two arguments.
  pub run : Libc → ℕ → K → Bytes → Bytes → Report K
  run libc turns k source_pid target = elim (userns_from_pid k (libc.atoi source_pid)) [
    | none ↦ fails
    | some (source_userns, k1) ↦ elim (get_userns_from libc k1 target) [
      | none ↦ fails
      | some (target_userns, k2) ↦
          decide libc turns k2 (libc.atoi source_pid) source_userns target_userns
    ]
  ]
