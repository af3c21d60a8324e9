-- ===== src/Lib.antt =====
-- pylibssh2: the C extension `_libssh2`, which makes the library libssh2 usable from Python 2. Paths
-- are from the repository's root: src/ holds the extension, libssh2/ the Python package over it.
--
-- The extension has one Python type for each kind of handle: Session (src/session.c), Channel
-- (src/channel.c), Listener (src/listener.c), Sftp (src/sftp.c), Sftpfile (src/sftpfile.c) and
-- Sftpdir (src/sftpdir.c). A method looks whether its handle is still open, parses its arguments,
-- calls libssh2, and turns a failure into an exception. A session keeps sets of the channels,
-- listeners and SFTP objects that it made, and an SFTP object those of its files and directories;
-- closing works through these sets.
--
-- The files:
--   Prelude    names and small helpers; the C `int` and `long` as ℤ, on which the program only does
--              comparisons
--   Host       libssh2 and CPython: `Env` is a parameter that answers each call by a function of all
--              the calls before it; a run keeps a log of the calls and the exception that is set
--   Errno      `libssh2_sftp_errno_to_str`, `libssh2_sftp_errno_to_exception` (src/sftp.c)
--   Report     the guard and the error switch that the methods repeat; the rules by which Honest,
--              Uses and Bounds prove a property of all the methods of a type
--   Handles    the structs of the header files
--   Init       `init_libssh2` (src/pylibssh2.c), the places of the C API (src/pylibssh2.h)
--   Types      the tables `PyTypeObject`; Freed is about the end of an object of any type
--   Identity   the hash and compare functions of the types; Protocol says what the interpreter gets
--   Channel    the 20 methods of src/channel.c, in Requests, Streams and Status; Table has one case
--              for each entry of `PYLIBSSH2_Channel_methods`
--   Stat       `sftp_attrs_to_statdict`, `stat_to_statdict` (src/pylibssh2.c)
--   Flags      `get_flags` (src/util.c)
--   Sftp       the methods of src/sftp.c on paths (Paths) and attributes (Attrs)
--   File       the methods of src/sftpfile.c
--   Dir        `read` and `list_files` of src/sftpdir.c; Lookup takes the result as a map from names
--   Session    the methods of src/session.c that neither open nor close an object: Auth, Setup, and
--              Agent with the loop over the identities of an SSH agent; Identities is about that loop.
--              Keyboard has `userauth_keyboardinteractive` and its callback, Callback `callback_set`;
--              Answers is about these two. X11 has `stub_x11_callback_func`, as far as references
--              and the interpreter's lock go
--   Methods    what the methods of channels, SFTP objects and files have in common
--   Store      the Python objects in memory, with reference counts: Run has the memory and the
--              commands on it, Startup `startup`, Creating `PYLIBSSH2_Session_New`, Sets the loops over
--              sets, Objects and Sessions closing and freeing, Opening and SftpOpening the methods that make objects. The use of
--              an object that is freed is a fault. Of the proofs, Returns has the rules for commands
--              and loops, Resources what libssh2 is given back, Entries how the memory changes; Closing
--              and Shutdown are about `Sftp_shutdown`; Freeing, Owning, Rounds and Disconnect about
--              `Session_close`, Dealloc about `PYLIBSSH2_Session_dealloc`, Channels about a channel's
--              life, Twice about closing again. Program is about sequences of calls: what a Python
--              program with references to channel objects can do, and what holds wherever it gets: Counts
--              about references, Ledger about what libssh2 has given and where it is. Files is the
--              same for the files and directories of an SFTP object, and Client, without a ledger,
--              for all objects of a session and all the methods that open, use or close them: State
--              has the invariant, Served, Present and Ended what follows from it. Threads has
--              `Channel_close` in steps between which other threads run
--   Examples   the theorems at concrete inputs
--
-- A method's arguments are those that `PyArg_ParseTuple` delivers, and `none` where it fails; an
-- object that is an argument is one of the type that the method expects, which is not checked. The
-- loops of `list_files` and of `userauth_agent` run on fuel that the caller gives: a round reads one
-- entry, or one identity, so one round more than there are is enough.
-- A loop over a set runs on fuel of one round more than the set has elements at its start, which is
-- enough because each round takes one out and nothing puts one in.
--
-- A `long` has 64 bits and an `int` 32. Client counts the reference to a channel object that `scp_recv`
-- makes and that nothing gives back as lost. It leaves out `direct_tcpip`, which returns a pointer of
-- libssh2 as an object, and lets `forward_listen` only pass NULL for the port, since libssh2 writes to
-- any other address that its number becomes.
--
-- Not modelled: the fields that `stub_x11_callback_func` leaves uninitialised in the objects it makes;
-- and, but for `Channel_close` and the static variables of `userauth_keyboardinteractive`, the release
-- of the interpreter's lock around the calls of libssh2, by which another thread may run in between.
pub mod Prelude
pub mod Host
pub mod Errno
pub mod Report
pub mod Handles
pub mod Channel
pub mod Stat
pub mod Flags
pub mod Sftp
pub mod File
pub mod Dir
pub mod Init
pub mod Identity
pub mod Session
pub mod Methods
pub mod Store
pub mod Types
mod Examples
