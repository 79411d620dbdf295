-- ===== src/Apue/Examples.antt =====
-- Runs of the calls of common/apue.c over concrete streams and sockets.
use unix_advanced_programing.Prelude.{ℕ, suc, ◌-◌, refl, true, some, List, [], ◌∷◌, ◌++◌, arith}
use unix_advanced_programing.Prelude.Int.{pos, negsuc}
use unix_advanced_programing.Posix.{Errno, einval}
use unix_advanced_programing.Posix.Script.{Event, chunk, fail, script_reader, script_IsStream}
use unix_advanced_programing.Posix.Tape.{Tape, tape_writer, tape_IsSink}
use unix_advanced_programing.Apue.Readn.{readn}
use unix_advanced_programing.Apue.Readn.Total
use unix_advanced_programing.Apue.Writen.{writen}
use unix_advanced_programing.Apue.Writen.Total as WriteCount
use unix_advanced_programing.Apue.FdPass.{Channel}
use unix_advanced_programing.Apue.UnixSocket.{serv_listen, serv_accept}
use unix_advanced_programing.Apue.UnixSocket.Calls.{Kernel, erase, IsTracked}
use unix_advanced_programing.Apue.UnixSocket.Resources.{
  Balanced, serv_listen-Balanced, serv_accept-Balanced,
}

-- Two bytes come before a failure.
abbrev events : List Event
events = chunk 7 (8 ∷ []) ∷ fail 5 ∷ []

readn_stops_example :
    Total.Outcome (script_IsStream 3) 4 (7 ∷ 8 ∷ []) (readn script_reader 3 4 5 events)
readn_stops_example = Total.readn_stops (script_IsStream 3) 4 5 events (omega arith) (omega arith)

writen_counts_example :
    WriteCount.Outcome
      (tape_IsSink 3)
      2
      (7 ∷ 8 ∷ [])
      ([], [])
      (writen tape_writer 3 5 (7 ∷ 8 ∷ []) ([], []))
writen_counts_example =
    WriteCount.writen_counts (tape_IsSink 3) 5 (7 ∷ 8 ∷ []) ([], []) (omega arith) (omega arith)

-- `sendmsg` sends both bytes.
abbrev socket_pair : Channel
socket_pair = record {
  writer = tape_writer;
  sendmsg = λ fd m w. (pos 2, (w.0 ++ m.buf0 ∷ m.buf1 ∷ [], w.1));
  malloc = λ w. (true, w);
}

-- The open descriptors, the allocated blocks and `errno`. `connect` fails.
abbrev Process : Type 0
Process = List ℕ × ℕ × Errno

abbrev kernel : Kernel
kernel = record {
  World = Process;
  socket = λ w. (pos 3, (3 ∷ w.0, w.1, w.2));
  bind = λ fd p w. (pos 0, w);
  listen = λ fd n w. (pos 0, w);
  accept = λ fd w. (some (4, 99 ∷ []), (4 ∷ w.0, w.1, w.2));
  connect = λ fd p w. (negsuc 0, w);
  close = λ fd w. (erase fd w.0, w.1, w.2);
  unlink = λ p w. w;
  stat = λ p w. (some 1000, w);
  malloc = λ w. (true, (w.0, suc w.1, w.2));
  free = λ w. (w.0, w.1 - 1, w.2);
  errno = λ w. w.2;
  set_errno = λ e w. (w.0, w.1, e);
}

abbrev kernel-IsTracked : IsTracked kernel
kernel-IsTracked = record {
  opened = λ w. w.0;
  blocks = λ w. w.1;
  socket_ok = λ w w' fd e. ground arith;
  socket_err = λ w w' n e. ground arith;
  accept_ok = λ l w w' fd p e. ground arith;
  accept_err = λ l w w' e. ground arith;
  malloc_ok = λ w w' e. ground arith;
  malloc_err = λ w w' e. ground arith;
  free_law = λ w n e. (refl, ground arith);
  close_law = λ fd w. (refl, refl);
  bind_law = λ fd p w. (refl, refl);
  listen_law = λ fd n w. (refl, refl);
  connect_law = λ fd p w. (refl, refl);
  unlink_law = λ p w. (refl, refl);
  stat_law = λ p w. (refl, refl);
  set_errno_law = λ e w. (refl, refl, refl);
}

abbrev process : Process
process = (0 ∷ [], 0, einval)

serv_listen_example :
    Balanced kernel-IsTracked
      (0 ∷ [])
      0
      (serv_listen kernel (47 ∷ 97 ∷ []) process).0
      (serv_listen kernel (47 ∷ 97 ∷ []) process).1
serv_listen_example = serv_listen-Balanced kernel-IsTracked (47 ∷ 97 ∷ []) process

serv_accept_example :
    Balanced kernel-IsTracked
      (0 ∷ [])
      0
      (serv_accept kernel 3 process).0
      (serv_accept kernel 3 process).2
serv_accept_example = serv_accept-Balanced kernel-IsTracked 3 process
