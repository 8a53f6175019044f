-- ===== src/Namespaces/Capable/Kernel.antt =====
-- What the program relies on of the system calls on namespace descriptors.
use my_notes.Common.{ℕ, ◌<◌, ◌≡◌, true, Option, none, some, ◌==◌, if◌then◌else◌}
use my_notes.Namespaces.Capable.{opened, eperm, Os}

-- The user namespaces, by numbers: the parent of each but the initial one, the user who created it, how
-- deep it is nested, and the device and i-node number that stand for it.
pub record Tree : Type 0 where
  pub parent_of : ℕ → Option ℕ
  pub owner_of : ℕ → ℕ
  pub depth : ℕ → ℕ
  pub file_of : ℕ → ℕ × ℕ
  pub deeper : (n p : ℕ) → parent_of n ≡ some p → depth p < depth n
  pub distinct : (m n : ℕ) → file_of m ≡ file_of n → m ≡ n

-- The open descriptors of the process, with the namespaces they refer to.
abbrev pub Descriptors : Type 0
Descriptors = ℕ → Option ℕ

abbrev pub Same : Descriptors → Descriptors → Type 0
Same d d' = (fd : ℕ) → d' fd ≡ d fd

abbrev pub Opens : ℕ → ℕ → Descriptors → Descriptors → Type 0
Opens fd n d d' = (d fd ≡ none) × ((x : ℕ) → d' x ≡ (if x == fd then some n else d x))

abbrev pub Closes : ℕ → Descriptors → Descriptors → Type 0
Closes fd d d' = (x : ℕ) → d' x ≡ (if x == fd then none else d x)

-- The calls on an open descriptor do what ioctl_ns(2), fstat(2) and close(2) say, and do not fail otherwise.
pub record IsDocumented {K : Type 0} (os : Os K) (tree : Tree) (open_in : K → Descriptors)
    : Type 0 where
  pub no_parent :
      (k : K) (fd n : ℕ)
      → open_in k fd ≡ some n
      → tree.parent_of n ≡ none
      → (k' : K) × (os.get_parent k fd ≡ (eperm, k')) × Same (open_in k) (open_in k')
  pub parent :
      (k : K) (fd n p : ℕ)
      → open_in k fd ≡ some n
      → tree.parent_of n ≡ some p
      → (fd' : ℕ) × (k' : K) × (os.get_parent k fd ≡ (opened fd', k'))
        × Opens fd' p (open_in k) (open_in k')
  pub closes :
      (k : K) (fd n : ℕ)
      → open_in k fd ≡ some n
      → (k' : K) × (os.close k fd ≡ (true, k')) × Closes fd (open_in k) (open_in k')
  pub stats : (k : K) (fd n : ℕ) → open_in k fd ≡ some n → os.fstat k fd ≡ some (tree.file_of n)
  pub owners :
      (k : K) (fd n : ℕ) → open_in k fd ≡ some n → os.get_owner_uid k fd ≡ some (tree.owner_of n)

-- A namespace is another one, or is reached from it by parents.
pub data Reaches (tree : Tree) : ℕ → ℕ → Type 0 where
  here : (n : ℕ) → Reaches tree n n
  climb : (n p m : ℕ) → tree.parent_of n ≡ some p → Reaches tree p m → Reaches tree n m
