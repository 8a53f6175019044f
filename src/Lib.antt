-- ===== src/Lib.antt =====
-- Models and proofs for the C programs of the Linux/UNIX handbook notes, under
-- 操作系统/Linux-UNIX系统编程手册/src; the paths below are given from there on.
--
-- The programs are small and mostly stand alone. The largest, inotify/inotify_dtree.c, keeps a cache
-- that maps inotify watch descriptors to the pathnames of a set of directory trees, and brings it up
-- to date as directories are created, deleted and renamed. Others are tools with some logic of their
-- own: acl_update changes access control lists, ns_capable judges what a process may do in another
-- namespace, userns_child_exec runs a command in new namespaces, and the programs of seccomp filter
-- system calls and answer them in another process. The rest are helpers that sample programs link
-- to: buffered and unbuffered input and output, argument parsing, library functions written out by
-- hand, and semaphore protocols.
--
-- Files:
--   Common          Boolean tests, lists over native numbers, C's signed integers, byte strings.
--   Inotify         inotify/inotify_dtree.c, with one module for each part:
--     Cache         the watch list: findWatch, markCacheSlotEmpty, findEmptyCacheSlot, addWatchToCache,
--                   pathnameToCacheSlot. A slot is an index of the list; growing adds 200 slots.
--                   Cache/WellFormed has the invariant, Cache/Lookup the map that the cache stands for.
--     World         the global variables, and the system calls as an interface `Os` over a state of the
--                   kernel. A function of the program is a state transformer that returns a value
--                   or stops: by exit, by a call that never returns, or by undefined behaviour.
--     Paths         rewriteCachedPaths and the test which pathnames lie in a subtree.
--     Roots         copyRootDirPaths, findRootDirPath, isRootDirPath, zapRootDirPath.
--     Watching      traverseTree, watchDir, watchSubtree, zapSubtree, reinitialize.
--     Events        processNextInotifyEvent, one function for each kind of event, findWatchChecked and
--                   checkCacheConsistency.
--     Reading       processInotifyEvents: the loop over a buffer of events, with the second read.
--     Commands      executeCommand and checkAllCachedPathnamesExist.
--     Program       main: options, the choice of what is ready, the main loop.
--   Sockets         sockets/read_line.c (ReadLine), sockets/read_line_buf.c (ReadLineBuf) and
--                   sockets/rdwrn.c (Transfer), over lists of what read and write return.
--   Programs        proc/setenv.c (Environment), procexec/execlp.c (Execlp), lib/get_num.c (GetNum),
--                   svsem/binary_sems.c and svsem/event_flags.c (Semaphores), and parseOps of
--                   svsem/svsem_op.c (SemOps). ShmTransfer has svshm/svshm_xfr_writer.c and
--                   svshm/svshm_xfr_reader.c as a step relation.
--   Acl             users_groups/ugid_functions.c (Ids) and acl/acl_update.c: parseEntrySpec and parseACL
--                   (Spec), findEntry, setPerms and updateACL over an interface to libacl (Update,
--                   with what is relied on of it in Update/Library, and what entries grant in
--                   Update/Grants), and main (Program).
--   Namespaces      namespaces/ns_capable.c (Capable, with what is relied on of the kernel in
--                   Capable/Kernel, the search for an ancestor in Capable/Ancestors and the whole
--                   program in Capable/Decision), and namespaces/userns_child_exec.c with the
--                   functions that it calls: its options (Options), the update of the ID maps over an
--                   interface to the calls on files (Maps), what the child does for the repeatable
--                   options over one to the calls on capabilities (Actions), and the parent and the
--                   child as a step relation (Handshake).
--   Seccomp         seccomp/seccomp_unotify_mkdir.c: its filters as lists of instructions, with that of
--                   seccomp/seccomp_multiarch.c (Filter), and the supervisor (Supervisor), with
--                   getTargetPathname of seccomp/seccomp_functions.c (Target). Supervisor/Log has the
--                   calls that the supervisor is judged by.
--   The modules named Tests, ExecTests and ShmTests apply the theorems to concrete values.
--
-- How the code corresponds to the definitions: a function `fooBar` of the source is `foo_bar` here,
-- and its loops and branches that are named are definitions of their own. Pathnames and texts are
-- lists of bytes without the terminating NUL; a result -1 is an option, a sum, or the integer where
-- the source keeps it. Code that is not in the repository is a parameter: the kernel, nftw's order
-- of visits, and the functions strtol, getenv, putenv, execve, semop and semctl, the password and
-- group files, libacl. Where a theorem needs what their manual pages say, it has that as a
-- hypothesis.
--
-- Bounds and fuel: few loops have a bound. The loop over a buffer of inotify events has fuel for
-- handling twice each event that is in the buffer or is still to be read, and two more rounds. A
-- handled event leaves the buffer, but for a rename that stands last: it is looked at again once
-- after a second read, so that the fuel is enough. The loop of reserveSem takes a number of turns, that
-- of waitForEventFlag a list of what other processes do before each turn; they are waiting when these
-- are used up, which is a state that they may be in.
-- The loop of parseOps runs as long as there is room in its array, as in the source. The search for
-- an ancestor of a namespace takes a number of turns, and more turns than the namespace is deep are
-- enough. The supervisor of seccomp runs for any number of turns, as its loop ends only by an exit.
-- All other loops run over a list. Pathnames are cut at PATH_MAX as by snprintf.
--
-- Not modelled: the texts of log messages, failing allocations, the terminal, the sizes of the read
-- buffers of inotify_dtree.c, and concurrency other than between the callers of the semaphores and
-- between the processes of userns_child_exec.c and of the transfer through shared memory. The other
-- sample programs are not modelled: most of them demonstrate a few system calls and print what they
-- return.
pub mod Common
pub mod Inotify
pub mod Sockets
pub mod Programs
pub mod Acl
pub mod Namespaces
pub mod Seccomp
