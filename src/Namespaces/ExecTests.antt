-- ===== src/Namespaces/ExecTests.antt =====
-- Runs of the theorems on userns_child_exec.c at concrete inputs.
use mathlib.Core.Path.{subst}
use my_notes.Common.{
  ℕ, ◌≡◌, ◌≢◌, ◌≤◌, refl, sym, ap, ◌∙◌, ◌⊎◌, inl, inr, Bool, true, false, ◌&&◌, List, [], ◌∷◌, ◌++◌,
  Option, none, some, Bytes, codes, ◌==◌, if◌then◌else◌, length, arith,
}
use my_notes.Namespaces.Options.{
  newuser, Opt, flag, uid_map_opt, verbose_opt, item, display, CmdOptions, defaults,
  parse_command_options,
}
use my_notes.Namespaces.Options.Described.{described}
use my_notes.Namespaces.Options.Parsed.{acceptable, parse_command_options_lem}
use my_notes.Namespaces.Maps as Maps
use my_notes.Namespaces.Maps.{
  opened, update_child_maps, update_given, update_gid_map, update_map, write_close,
  proc_setgroups_write,
}
use my_notes.Namespaces.Maps.Files as Files
use my_notes.Namespaces.Maps.Files.{Journal}
use my_notes.Namespaces.Maps.Written.{Writes, wanted, update_child_maps-Writes}
use my_notes.Namespaces.Actions as Actions
use my_notes.Namespaces.Actions.{
  CapFlag, cap_effective, cap_permitted, cap_inheritable, modify_individual_capability,
}
use my_notes.Namespaces.Actions.Sets as Sets
use my_notes.Namespaces.Actions.Sets.{
  CapSet, permitted, effective, inheritable_set, bounding, ambient_caps, Gives, flag_set,
}
use my_notes.Namespaces.Actions.Modify.{Modified, modify_individual_capability-Modified}
use my_notes.Namespaces.Handshake.{
  waiting, exited, running, System, Calls, begins, at_end, parent_update, parent_close, child_close,
  child_read, updates, closes, child_closes, child_reads, Runs, start, after,
}
use my_notes.Namespaces.Handshake.Order.{Written, running_child-Written}
use my_notes.Namespaces.Handshake.Progress.{GoesOn, runs-GoesOn}

abbrev command : List Bytes
command = codes "sh" ∷ []

-- -U -v -M 0,1000,1 -d, with a command
abbrev arguments : List Opt
arguments = flag newuser ∷ verbose_opt ∷ uid_map_opt (codes "0 1000 1,1 0 1") ∷ item display ∷ []

parse_command_options_example : parse_command_options arguments command ≡ (
    if acceptable arguments command
    then some (record (described defaults arguments) { argv = command })
    else none)
parse_command_options_example = parse_command_options_lem arguments command

abbrev options : CmdOptions
options = record (described defaults arguments) { argv = command }

-- Files that keep what is written to them, and the last one opened.
abbrev Disk : Type 0
Disk = Journal × Bytes

abbrev disk_os : Maps.Os Disk
disk_os = record {
  open_file = λ k path. (opened 3, (k.0, path));
  write = λ k fd text. (some (length text), (k.0 ++ (k.1, text) ∷ [], k.1));
  close = λ k fd. k;
  decimal = λ n. codes "7";
}

abbrev written : Disk → Journal
written k = k.0

disk_os-IsDocumented : Files.IsDocumented disk_os written 7 true
disk_os-IsDocumented = record {
  refers_to = λ k fd. k.1;
  opens = λ k path fd e. refl;
  open_journal = λ k path. refl;
  writes = λ k fd text n e. (grind (arith, e), refl);
  write_error = λ k fd text e. absurd (cc);
  close_journal = λ k fd. refl;
  no_setgroups = λ k e. absurd (cc);
  setgroups = λ k e. λ e'. cc;
}

update_child_maps_example :
    Writes disk_os written 7 true disk_os-IsDocumented
      (wanted disk_os written 7 true disk_os-IsDocumented 1000 100 options)
      ([], [])
      (update_child_maps disk_os 1000 100 options ([], []) 7)
update_child_maps_example =
    update_child_maps-Writes disk_os written 7 true disk_os-IsDocumented 1000 100 options ([], [])

-- Processes whose capability sets are functions.
abbrev Proc : Type 0
Proc = CapSet → ℕ → Bool

abbrev sets : Proc → CapSet → ℕ → Bool
sets k permitted n = k permitted n
sets k effective n = k effective n
sets k inheritable_set n = k inheritable_set n
sets k bounding n = k bounding n
sets k ambient_caps n = k ambient_caps n && (k permitted n && k inheritable_set n)

abbrev same_flag : CapFlag → CapFlag → Bool
same_flag cap_effective cap_effective = true
same_flag cap_permitted cap_permitted = true
same_flag cap_inheritable cap_inheritable = true
same_flag _ _ = false

abbrev with_flags : Proc → (CapFlag → ℕ → Bool) → Proc
with_flags k caps permitted n = caps cap_permitted n
with_flags k caps effective n = caps cap_effective n
with_flags k caps inheritable_set n = caps cap_inheritable n
with_flags k caps bounding n = k bounding n
with_flags k caps ambient_caps n = sets k ambient_caps n

abbrev without : Proc → ℕ → Proc
without k cap permitted n = k permitted n
without k cap effective n = k effective n
without k cap inheritable_set n = k inheritable_set n
without k cap bounding n = if n == cap then false else k bounding n
without k cap ambient_caps n = k ambient_caps n

-- Changes of the ambient set are refused.
abbrev proc_os : Actions.Os (CapFlag → ℕ → Bool) Proc
proc_os = record {
  cap_get_proc = λ k. some (λ f. sets k (flag_set f));
  cap_set_flag =
      λ caps f cap b. some (λ f' n. if same_flag f f' && (cap == n) then b else caps f' n);
  cap_set_proc = λ k caps. some (with_flags k caps);
  cap_free = λ caps. true;
  cap_from_name = λ name. some 12;
  cap_from_text = λ text. none;
  bset_drop = λ k cap. some (without k cap);
  ambient_set = λ k b cap. none;
  set_secbits = λ k bits. none;
  setresuid = λ k r e s. some k;
  sleep = λ k n. k;
  display_creds = λ k n. some k;
  atoi = λ s. 0;
  cap_last_cap = 40;
}

abbrev value : {A : Type 0} → A → Option A → A
value a none = a
value a (some b) = b

same_flag_lem : (f f' : CapFlag) → f ≢ f' → same_flag f f' ≡ false
same_flag_lem cap_effective cap_effective ne = absurd (ne refl)
same_flag_lem cap_effective cap_permitted ne = refl
same_flag_lem cap_effective cap_inheritable ne = refl
same_flag_lem cap_permitted cap_effective ne = refl
same_flag_lem cap_permitted cap_permitted ne = absurd (ne refl)
same_flag_lem cap_permitted cap_inheritable ne = refl
same_flag_lem cap_inheritable cap_effective ne = refl
same_flag_lem cap_inheritable cap_permitted ne = refl
same_flag_lem cap_inheritable cap_inheritable ne = absurd (ne refl)

same_flag_refl : (f : CapFlag) → same_flag f f ≡ true
same_flag_refl cap_effective = refl
same_flag_refl cap_permitted = refl
same_flag_refl cap_inheritable = refl

other_flag :
    (f f' : CapFlag) (cap n : ℕ) (b x : Bool)
    → (f ≢ f') ⊎ (cap ≢ n)
    → (if same_flag f f' && (cap == n) then b else x) ≡ x
other_flag f f' cap n b x (inl ne) = rw (same_flag_lem f f' ne) refl
other_flag f f' cap n b x (inr ne) = ground arith

own_flag :
    (f : CapFlag) (cap : ℕ) (b x : Bool) → (if same_flag f f && (cap == cap) then b else x) ≡ b
own_flag f cap b x = let own = same_flag_refl f in ground arith

stored :
    (k : Proc) (caps : CapFlag → ℕ → Bool) (f : CapFlag) (n : ℕ)
    → sets (with_flags k caps) (flag_set f) n ≡ caps f n
stored k caps cap_effective n = refl
stored k caps cap_permitted n = refl
stored k caps cap_inheritable n = refl

bounded : (a x : Bool) → (a && x) ≡ ((a && x) && x)
bounded true true = refl
bounded true false = refl
bounded false x = refl

without_lem :
    (k : Proc) (cap : ℕ) (s : CapSet) (n : ℕ)
    → (s ≢ bounding) ⊎ (n ≢ cap)
    → sets (without k cap) s n ≡ sets k s n
without_lem k cap permitted n h = refl
without_lem k cap effective n h = refl
without_lem k cap inheritable_set n h = refl
without_lem k cap ambient_caps n h = refl
without_lem k cap bounding n (inl ne) = absurd (ne refl)
without_lem k cap bounding n (inr ne) = ground arith

without-only :
    (k : Proc) (cap : ℕ) (s : CapSet)
    → (sets (without k cap) s cap ≡ sets k s cap) ⊎ (sets (without k cap) s cap ≡ false)
without-only k cap permitted = inl refl
without-only k cap effective = inl refl
without-only k cap inheritable_set = inl refl
without-only k cap ambient_caps = inl refl
without-only k cap bounding = inr (ground arith)

without-Gives :
    (k k' : Proc) (cap : ℕ) → without k cap ≡ k' → Gives cap false bounding (sets k) (sets k')
without-Gives k k' cap e =
    subst (λ p. Gives cap false bounding (sets k) (sets p)) e
      (record {
        given = ground arith;
        only_given = without-only k cap;
        others = λ s n ne. without_lem k cap s n (inr ne);
      })

proc_os-IsDocumented : Sets.IsDocumented proc_os sets
proc_os-IsDocumented = record {
  in_caps = λ caps f n. caps f n;
  gets = λ k caps e f n. sym (ap (λ o. value caps o f n) e);
  flag_given =
      λ caps caps' f cap b e. sym (ap (λ o. value caps o f cap) e) ∙ own_flag f cap b (caps f cap);
  flag_others = λ caps caps' f f' cap n b e h.
      sym (ap (λ o. value caps o f' n) e) ∙ other_flag f f' cap n b (caps f' n) h;
  sets_flags =
      λ k k' caps e f n. sym (ap (λ o. sets (value k o) (flag_set f) n) e) ∙ stored k caps f n;
  sets_bounding = λ k k' caps e n. sym (ap (λ o. value k o bounding n) e);
  sets_ambient = λ k k' caps e n.
      subst
        (λ p.
          sets p ambient_caps n
          ≡ (sets k ambient_caps n && (sets p permitted n && sets p inheritable_set n)))
        (ap (value k) e) refl;
  ambient_below = λ k n. bounded (k ambient_caps n) (k permitted n && k inheritable_set n);
  drops = λ k k' cap e. without-Gives k k' cap (ap (value k) e);
  ambients = λ k k' b cap e. absurd (cc);
}

abbrev all_set : Proc
all_set s n = true

-- -X ib-cap_net_raw
modify_individual_capability_example :
    Modified proc_os sets proc_os-IsDocumented all_set (b'-' == b'+') 12 (codes "ib") (
      modify_individual_capability proc_os all_set (codes "ib" ++ b'-' ∷ b'c' ∷ codes "ap_net_raw"))
modify_individual_capability_example =
    modify_individual_capability-Modified proc_os sets proc_os-IsDocumented all_set (codes "ib")
      b'-' b'c' (codes "ap_net_raw") 12 (refl, (refl, tt)) refl refl

abbrev calls : Calls Disk
calls = record {
  set_dumpable = λ k. some k;
  pipe = λ k. some k;
  mmap_stack = λ k. some k;
  clone = λ k flags. some (7, k);
  execvp = λ k argv. true;
}

-- The same processes, whose capabilities do not matter.
abbrev idle_os : Actions.Os (CapFlag → ℕ → Bool) Disk
idle_os = record {
  cap_get_proc = λ k. none;
  cap_set_flag = λ caps f cap b. none;
  cap_set_proc = λ k caps. none;
  cap_free = λ caps. true;
  cap_from_name = λ name. none;
  cap_from_text = λ text. none;
  bset_drop = λ k cap. none;
  ambient_set = λ k b cap. none;
  set_secbits = λ k bits. none;
  setresuid = λ k r e s. some k;
  sleep = λ k n. k;
  display_creds = λ k n. some k;
  atoi = λ s. 0;
  cap_last_cap = 40;
}

abbrev updated : System Disk
updated = parent_update calls disk_os idle_os 1000 100 options 7 (begins ([], []))

abbrev child_waits : System Disk
child_waits = child_close calls disk_os idle_os updated

abbrev closed : System Disk
closed = parent_close calls disk_os idle_os child_waits

abbrev released : System Disk
released = child_read calls disk_os idle_os at_end closed

released-Runs : Runs calls disk_os idle_os 1000 100 options 7 ([], []) 4 released
unfolding parent_update parent_close child_close child_read update_child_maps update_given
    update_gid_map update_map write_close proc_setgroups_write
released-Runs =
    after 3 closed released
      (after 2 child_waits closed
        (after 1 updated child_waits (after 0 (begins ([], [])) updated start (updates refl))
          (child_closes refl))
        (closes refl))
      (child_reads at_end refl (refl, refl))

released-running : released.child ≡ running
unfolding child_read
released-running = refl

running_child-Written_example :
    ((released.parent ≡ waiting)
      × Written calls disk_os idle_os 1000 100 options 7 written true disk_os-IsDocumented
          ([], [])
          (true, released.kernel))
    ⊎ ((released.parent ≡ exited false)
        × Written calls disk_os idle_os 1000 100 options 7 written true disk_os-IsDocumented
            ([], [])
            (false, released.kernel))
running_child-Written_example =
    running_child-Written calls disk_os idle_os 1000 100 options 7 written true disk_os-IsDocumented
      ([], []) 4 released released-Runs released-running

runs-GoesOn_example : (4 ≤ 6) × GoesOn calls disk_os idle_os 1000 100 options 7 released
runs-GoesOn_example =
    runs-GoesOn calls disk_os idle_os 1000 100 options 7 ([], []) 4 released released-Runs
