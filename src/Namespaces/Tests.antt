-- ===== src/Namespaces/Tests.antt =====
-- Runs of the theorems on namespaces at concrete inputs.
use my_notes.Common.{
  ℕ, zero, suc, ◌<◌, ◌≡◌, refl, true, List, [], ◌∷◌, ◌++◌, Option, none, some, codes, starts_with,
  ◌==◌, if◌then◌else◌, length, arith,
}
use my_notes.Namespaces.Capable.{
  Parent, opened, eperm, other_error, Os, Libc, euid_of_process, scan_status, decide,
}
use my_notes.Namespaces.Capable.Kernel.{Tree, Opens, Same, IsDocumented}
use my_notes.Namespaces.Capable.Decision.{Ends, decide-Ends}

-- A chain of namespaces, each the child of the one before it.
abbrev below : ℕ → Option ℕ
below zero = none
below (suc n) = some n

chain-deeper : (n p : ℕ) → below n ≡ some p → p < n
chain-deeper zero p e = grind arith
chain-deeper (suc n) p e = grind arith

abbrev chain : Tree
chain = record {
  parent_of = below;
  owner_of = λ n. 1000;
  depth = λ n. n;
  file_of = λ n. (0, n);
  deeper = chain-deeper;
  distinct = λ m n e. grind arith;
}

-- A kernel whose state is the table of open descriptors.
abbrev Table : Type 0
Table = List (Option ℕ)

abbrev open_in : Table → ℕ → Option ℕ
open_in [] fd = none
open_in (o ∷ k) zero = o
open_in (o ∷ k) (suc fd) = open_in k fd

abbrev closed : Table → ℕ → Table
closed [] fd = []
closed (o ∷ k) zero = none ∷ k
closed (o ∷ k) (suc fd) = o ∷ closed k fd

abbrev parent_result : Table → Option ℕ → Parent × Table
parent_result k none = (other_error, k)
parent_result k (some zero) = (eperm, k)
parent_result k (some (suc n)) = (opened (length k), k ++ some n ∷ [])

abbrev table_os : Os Table
table_os = record {
  open_file = λ k path. (none, k);
  open_pid_userns = λ k pid. (none, k);
  fstat = λ k fd. elim (open_in k fd) [ none ↦ none | some n ↦ some (0, n) ];
  is_userns = λ k fd. some true;
  get_userns = λ k fd. (none, k);
  get_parent = λ k fd. parent_result k (open_in k fd);
  get_owner_uid = λ k fd. some 1000;
  close = λ k fd. (true, closed k fd);
  status_lines = λ k pid. some (codes "Name: x" ∷ codes "Uid: 0 1000 0 0" ∷ []);
}

open_in-append :
    (k : Table) (n x : ℕ)
    → open_in (k ++ some n ∷ []) x ≡ (if x == length k then some n else open_in k x)
open_in-append [] n zero = refl
open_in-append [] n (suc x) = ground arith
open_in-append (o ∷ k) n zero = ground arith
open_in-append (o ∷ k) n (suc x) = ground (arith, open_in-append k n x)

open_in-length : (k : Table) → open_in k (length k) ≡ none
open_in-length [] = refl
open_in-length (o ∷ k) = open_in-length k

open_in-closed :
    (k : Table) (fd x : ℕ) → open_in (closed k fd) x ≡ (if x == fd then none else open_in k x)
open_in-closed [] fd x = ground arith
open_in-closed (o ∷ k) zero zero = refl
open_in-closed (o ∷ k) zero (suc x) = ground arith
open_in-closed (o ∷ k) (suc fd) zero = ground arith
open_in-closed (o ∷ k) (suc fd) (suc x) = ground (arith, open_in-closed k fd x)

table_os-parent :
    (k : Table) (fd n p : ℕ)
    → open_in k fd ≡ some n
    → below n ≡ some p
    → (fd' : ℕ) × (k' : Table) × (table_os.get_parent k fd ≡ (opened fd', k'))
      × Opens fd' p (open_in k) (open_in k')
table_os-parent k fd zero p e up = grind arith
table_os-parent k fd (suc n) p e up =
    let same : n ≡ p = grind arith in
    (length k, k ++ some p ∷ [], rw (e, same) refl, (open_in-length k, open_in-append k p))

table_os-no_parent :
    (k : Table) (fd n : ℕ)
    → open_in k fd ≡ some n
    → below n ≡ none
    → (k' : Table) × (table_os.get_parent k fd ≡ (eperm, k')) × Same (open_in k) (open_in k')
table_os-no_parent k fd zero e top = (k, rw e refl, λ x. refl)
table_os-no_parent k fd (suc n) e top = grind arith

table_os-IsDocumented : IsDocumented table_os chain open_in
table_os-IsDocumented = record {
  no_parent = table_os-no_parent;
  parent = table_os-parent;
  closes = λ k fd n e. (closed k fd, refl, open_in-closed k fd);
  stats = λ k fd n e. rw (table_os, e) refl;
  owners = λ k fd n e. refl;
}

abbrev libc : Libc
libc = record { atoi = λ s. 7; scan_uid = λ s. 1000 }

uid_found : (k : Table) → euid_of_process table_os libc k 7 ≡ some 1000
unfolding euid_of_process scan_status starts_with
uid_found k = refl

-- The process is in the initial namespace, and the target is two levels below it.
decide-Ends_example :
    Ends table_os chain open_in table_os-IsDocumented libc 0 1 0 2 1000
      (open_in (some 0 ∷ some 2 ∷ []))
      (decide table_os libc 3 (some 0 ∷ some 2 ∷ []) 7 0 1)
decide-Ends_example =
    decide-Ends table_os chain open_in table_os-IsDocumented libc 0 1 0 2 1000
      (open_in (some 0 ∷ some 2 ∷ [])) (omega arith) refl refl 3 7 (some 0 ∷ some 2 ∷ [])
      (λ x. refl) (omega arith) uid_found
