-- ===== src/Lib.antt =====
-- A verification library for the C code of two books: the helpers of the UNIX programming chapters
-- (UnixAdvancedProgramming) and those of the network programming chapters (UnixNetworkProgrammingVol1),
-- with those programs of the chapters that have a state of their own.
--
-- The two halves share nothing but their habits. UnixNetworkProgrammingVol1/util/unp.c wraps the socket
-- calls, and the network programs call the wrappers; `err_sys` of its util.h only prints, so that a wrapper
-- goes on behind an error. UnixAdvancedProgramming/common/apue.c has its own readn and writen, and the
-- passing of descriptors over UNIX domain sockets, which is built on writen. The thread programs are
-- independent of each other. The poll server of ch4_tcp calls read itself and the wrappers for the rest;
-- str_echo of the forking server and the client str_cli_v4 stand on Writen.
--
-- Files:
--   Prelude           Booleans, lists over the native numbers, `int`, bits
--   Posix             read and write as parameters, with what is documented of them (Stream, Sink), printed
--                     lines (Printf), and concrete kernels that meet the laws (Script, Plain, Tape)
--   Unp/Readn, Unp/Writen, Unp/Readline    util/unp.c: Readn, Writen, readline_v1, readline_v3 with my_read
--   Unp/Wrappers      util/unp.c: the wrappers of one call (Effects has their common shapes)
--   Unp/Flags         util/unp.c: get_fl, set_fl, clear_fl
--   Unp/SockOpt       util/unp.c: s_sock_ops, its printers, print_socket_config
--   Unp/Sctp          util/unp.c: sctp_print_notification, sctp_print_sctp_info
--   Unp/NetDb         util/unp.c: print_host_info and its kin, sock_ntop
--   Apue/Readn, Apue/Writen    common/apue.c: readn, writen
--   Apue/FdPass       common/apue.c: send_fd, send_err, recv_fd
--   Apue/Locks, Apue/Report    common/apue.c: lock_reg and its kin, pr_exit, pr_mask, pr_limits
--   Apue/UnixSocket   common/apue.c: serv_listen, serv_accept, cli_conn
--   Threads/JobQueue  ch7_12_process/lock_test4.c: the job queue, on a heap of jobs
--   Threads/Refcount  ch7_12_process/lock_test1.c: the counted object
--   Threads/FooTable  ch7_12_process/lock_test3.c: the hash table of counted objects
--   Threads/Timeout   ch7_12_process/lock_test5.c: timeout and makethread
--   Threads/Barrier   ch7_12_process/barier_test1.c: the sort in threads behind a barrier, and the merge
--   Threads/WorkQueue    ch7_12_process/cond_test1.c: the threads that wait for messages on a condition
--   Signals/SigSet    ch7_12_process/process_relation.c: sigaddset_m and its kin, itoa_m
--   Signals/Tell      ch7_12_process/process_relation.c: TELL_WAIT, WAIT_CHILD and their kin
--   Signals/System, Signals/Abort    ch7_12_process/process_relation.c: system_m1, abort1 (over Actions)
--   Network/SelectServer    UnixNetworkProgrammingVol1/ch4_tcp/echo_tcp_server_v2.c: the server with select
--   Network/BatchClient  UnixNetworkProgrammingVol1/ch4_tcp/echo_tcp_client_v1.c: str_cli_v4
--   Network/ConnectTimeout  UnixNetworkProgrammingVol1/ch14_advanced_io_function/main.c: connect_timeo
--   Network/PollServer   UnixNetworkProgrammingVol1/ch4_tcp/echo_tcp_server_v2.c: the server with poll
--   Network/Echo      UnixNetworkProgrammingVol1/ch4_tcp/echo_tcp_server_v1.c: str_echo and bin_sum
--   Network/Ipc       ch13_io/network_ipc.c: init_server, connect_retry, the printers of an addrinfo
--   Files/AioCopy     ch13_io/aio_test1.c: the state machine of the asynchronous copy, translate
--   Process/Popen     ch13_io/ipc_test.c: popen_m, pclose_m
--   Process/Daemon    ch13_io/daemon_test1.c: daemonize
--   Terminal/Modes, Terminal/Password    ch18_terminal_io/term_io.c: tty_cbreak and its kin, getpass_m
--   Environment       ch7_12_process/thread_test.c and process_control.c: getenv_m, getenv_r_m, compt2ulong
--   OpenServer        ch16_socket/open_server_v1.c and open_server_v2.c: handle_request, the client table
-- Each child module of a part is named for what it proves, and the Examples and Runs modules hold runs on
-- concrete inputs.
--
-- State and calls. A static variable, a struct or a heap is a record that a function takes and returns. A
-- system call is an argument over a world that is otherwise unknown, and a record of laws (IsStream,
-- IsSink, IsReliable, IsTracked, IsFcntl, IsSockets, IsKernel, IsAio, IsTerminal,
-- IsSignals, IsShell, IsProcess, IsPiped, IsUnix) states what is documented of it. An error is a value; `errno` is a
-- part of it where the code reads it. A goto to a common exit is a function.
--
-- Fuel. A loop over read or write takes fuel, one for each call: as many as there are bytes wanted and
-- signals that may still come are enough, since a call that is not interrupted moves a byte or ends the
-- loop. The walk through the job queue takes fuel for each job. `recv_fd` loops until a message ends it, so
-- it has no bound, and what is shown of it is shown for every fuel. `str_echo` takes fuel for each byte and
-- each signal. The asynchronous copy takes a pass for each turn of a worker: three for a byte of the file are
-- enough, with one for each time that an operation is still in progress. The servers' loops have no end, and
-- what is shown of them is shown after every number of rounds. The waits of `system_m1` and `pclose_m` take
-- fuel for each signal that may interrupt them. The threads of cond_test1.c and the two processes of Signals/Tell
-- are step relations, whose steps come in any order, a critical section or a call of the system at a time.
--
-- Integers. Counts of bytes are natural numbers below 2 ^ 64, with the subtraction of `size_t` written out; an
-- `int` that is used as a word is its pattern of 32 bits, and the conversion of `ssize_t` to `int` wraps.
--
-- Not modelled: the `main` programs of the chapters, which demonstrate one call each or loop around the
-- wrappers; dump_stat of apue.c; the options table and the pseudo terminals of ch18_terminal_io and
-- ch19_psedo_terminal; the programs of process_relation.c that show one
-- signal call each; str_cli, str_cli_v2 and str_cli_v3; the code under `#if 0`; the unfinished functions of unp.c
-- that return 0; lock_test2.c, which does not compile.
pub mod Prelude
pub mod Posix
pub mod Unp
pub mod Apue
pub mod Threads
pub mod Network
pub mod Files
pub mod Terminal
pub mod Environment
pub mod OpenServer
pub mod Process
pub mod Signals
