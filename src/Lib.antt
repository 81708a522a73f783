-- ===== src/Lib.antt =====
-- The kernel of IXLandSystem, a Linux-like process layer inside one host process, as definitions
-- and theorems: process identifiers, tasks, descriptor tables and the calls on them, groups and
-- sessions, signals, creation, end and waiting, paths, directories, epoll, select and poll, sockets,
-- the registry of commands; the user database of IXLandLibC; and the WASI calls of IXLandWasm.
--
-- Parts and sources (paths from the repository's root):
--   Pid                IXLandSystem/kernel/pid.c, the stack of free identifiers.
--   Fd.Files           IXLandSystem/fs/fdtable.c, lines 1 to 153, and fdtable.h: file objects with a
--                      count of references, and the table `ixland_files` of a task.
--   Fd.Static          IXLandSystem/fs/fdtable.c from line 155: the library's static table.
--   Fd.Calls           IXLandSystem/fs/open.c, fcntl.c and read_write.c on that table.
--   Path               IXLandSystem/fs/path.c, lines 20 to 224: the calls of ixland_path.h.
--   Path.Dots          IXLandSystem/fs/path.c: __ixland_path_normalize.
--   Path.Hybrid        IXLandSystem/fs/path.c: __ixland_path_join, _classify, _resolve and others.
--   Epoll              IXLandSystem/fs/eventpoll.c and epoll_internal.h; Epoll.Table has the table of
--                      instances, Epoll.Pwait the wait.
--   Readiness          IXLandSystem/fs/select_internal.h; Readiness.Poll and Readiness.Select have the
--                      calls of IXLandSystem/fs/select.c.
--   Directories        IXLandSystem/fs/namei.c: each call as the list of what it asks the host.
--   Dirents            IXLandSystem/fs/readdir.c and dirent.h: getdents64.
--   Network            IXLandSystem/kernel/net/network.c: the table of sockets; Network.Calls has the
--                      calls on a socket.
--   Wasi               IXLandWasm/ixland-wasm-engine/wamr/ixland_wamr.c: the descriptors of a WebAssembly
--                      program; Wasi.Opening has path_open and clock_time_get, Wasi.Strings its
--                      arguments and environment, Wasi.Load its start.
--   Runtime            IXLandWasm/ixland-wasm-engine/wamr/ixland_wamr_simple.c.
--   Exec               IXLandSystem/fs/exec.c; Exec.Lookup has the search of execvp.
--   Registry           IXLandSystem/runtime/native/registry.c and registry.h.
--   Users              IXLandLibC/src/usersdb: pwd.c, grp.c, internal_provider.h.
--   Kernel             IXLandSystem/kernel/task.h, IXLandSystem/fs/vfs.h and
--                      IXLandSystem/kernel/signal.h: the records and the global state.
--   Kernel.Tasks       IXLandSystem/kernel/task.c: task_hash, ixland_task_alloc, _free, _lookup.
--   Kernel.Boot        IXLandSystem/kernel/task.c: ixland_task_init, ixland_getpid, ixland_getppid,
--                      and ixland_fs_alloc of IXLandSystem/fs/vfs.c; Kernel.Boot.Library has
--                      IXLandSystem/kernel/init.c.
--   Kernel.Identity    IXLandSystem/kernel/task.c: process groups and sessions.
--   Kernel.Sigset      IXLandSystem/kernel/signal.c from line 507, and the header
--                      IXLandSystem/include/ixland/ixland_signal.h: signal masks.
--   Kernel.Delivery    IXLandSystem/kernel/signal.c: kill, killpg, raise, what a signal does.
--   Kernel.Masks       IXLandSystem/kernel/signal.c: sigaction, signal, sigprocmask, sigpending,
--                      alarm; Kernel.Masks.Sleeping has pause and sigsuspend.
--   Kernel.Wait        IXLandSystem/kernel/wait.c.
--   Kernel.Exit        IXLandSystem/kernel/exit.c.
--   Kernel.Fork        IXLandSystem/kernel/fork.c.
--   Prelude            shared names, tests on numbers, lists and integers.
--   Examples           the theorems at concrete inputs.
-- A function `ixland_f` of the source is the definition `f`; its helpers are the blocks of the
-- function, in their order. The parts meet in `Kernel`: `task_free` gives the identifier back to
-- `Pid` and frees the table of `Fd.Files`, `kill` and `setpgid` look tasks up and drop the
-- reference, `waitpid` frees the child it reports, `fork` allocates a task and copies the table. No task of the
-- program has a limit of children above 0, so that `fork` and `vfork` refuse in every run.
--
-- `Fd.Calls` uses the operations of `Fd.Static`, and `Path.Hybrid` the normalizer of `Path.Dots`; two
-- functions of one name in path.c are `path_classify` and `hybrid_classify`, `path_normalize` and
-- `normalize`.
--
-- How the code is read:
--   * A call is one step on the state: its locks make it so. waitpid, pause and sigsuspend are the
--     exceptions: each wait on the condition variable is a point where other threads change the
--     kernel, and what they do is an argument of the call, a function for each wait. In select the
--     host may answer differently in its two loops over the descriptors.
--   * Pointers are numbers, the heap is a function from them, and a chain through `next_sibling` or
--     `hash_next` is a list. The result `none` of a command is undefined behaviour of the C code:
--     a NULL or freed pointer that is followed, an index out of bounds.
--   * What calloc, pthread_create and time answer is an argument of the definition. The numbers
--     of the host's signals are a record of parameters. A host `sigset_t` is the set of its
--     members; the record says up to which number it has any, and above it sigaddset does nothing.
--   * Numbers: `pid_t` and `int` are integers, and no modelled value reaches their bounds except a
--     count of children compared with a limit. Words of masks are lists of 64 bits. The
--     remaining time of an alarm wraps at 32 bits.
--   * Loops over arrays and lists are structural recursion. The loops that count have the exact
--     number of rounds as an argument: 64536 for `fill`, 1024 for `collect`, 63 for `set_members`,
--     253 for `first_unused` of descriptors, 256 for that of sockets, 125 for `first_free`, 256 for
--     `first_null`, and the signals below both limits in the conversions of masks.
--     The pass of __ixland_path_normalize has fuel, as many rounds as the path has bytes, and each
--     round reads one at least.
--   * Texts are lists of bytes without the NUL. A buffer is its size, and what was written to it.
--     What getenv, getcwd, regexec, kevent, readdir, the Network framework, WAMR and the
--     host's file calls answer are arguments, and so are what a native entry of execve does to
--     the state, and ixland_vfs_open and ixland_vfs_translate, which no file of the repository
--     defines.
-- Not modelled: the thin wrappers of host calls (cred.c, resource.c, time.c, sys.c, random.c, sync.c,
-- stat.c, ioctl.c and the stubs beside them), the redirection of libc names, the meeting of the threads
-- of fork through setjmp, thread creation itself, the signal queue, which no call uses, the adapter
-- and the command line of the WebAssembly host, and the frameworks, kqueue and WAMR themselves. getopt.c,
-- getopt_long.c and ssh_main.c are copies of other projects.
pub mod Directories
pub mod Dirents
pub mod Epoll
pub mod Examples
pub mod Exec
pub mod Fd
pub mod Kernel
pub mod Network
pub mod Path
pub mod Pid
pub mod Prelude
pub mod Readiness
pub mod Registry
pub mod Runtime
pub mod Users
pub mod Wasi
