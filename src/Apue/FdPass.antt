-- ===== src/Apue/FdPass.antt =====
-- `send_fd`, `send_err` and `recv_fd` of common/apue.c: a descriptor, or an error message and its
-- code, over a UNIX domain socket. The protocol: the message's bytes, a zero byte and a status byte.
pub mod Send
pub mod Receive
pub mod Refusal
mod Runs
use unix_advanced_programing.Prelude.{
  ℕ, zero, suc, ◌+◌, ◌-◌, ◌%◌, Bool, true, false, Option, none, some, List, [], ◌∷◌, ◌==◌, ltb,
  if◌then◌else◌, length, take,
}
use unix_advanced_programing.Prelude.Int.{ℤ, pos, negsuc, neg}
use unix_advanced_programing.Posix.{Ssize, bytes, minus_one, Writer}
use unix_advanced_programing.Apue.Writen.{writen}

-- What `sendmsg` is given: the two bytes and the descriptor in the control data.
pub record Message : Type 0 where
  pub buf0 : ℕ
  pub buf1 : ℕ
  pub control : Option ℕ

-- The calls that the sender makes; `malloc` says whether it gave memory.
pub record Channel : Type 1 where
  pub writer : Writer
  pub open writer use *
  pub sendmsg : ℕ → Message → writer.World → ℤ × writer.World
  pub malloc : writer.World → Bool × writer.World

-- The status byte of an error code: `buf[1] = -fd_to_send; if (buf[1] == 0) buf[1] = 1;`
pub status_byte : ℕ → ℕ
status_byte code = if code % 256 == 0 then 1 else code % 256

-- The message for an error code -(n + 1), and that for a descriptor.
pub error_message : ℕ → Message
unfolding status_byte
error_message n = record { buf0 = 0; buf1 = status_byte (suc n); control = none }

pub fd_message : ℕ → Message
fd_message d = record { buf0 = 0; buf1 = 0; control = some d }

-- `sendmsg(fd, &msg, 0) != 2`
abbrev pub is_two : ℤ → Bool
is_two (pos n) = n == 2
is_two (negsuc n) = false

-- -1 and 0, as the senders return them.
pub data Sent : Type 0 where
  sent_ok : Sent
  sent_failed : Sent

module _ (c : Channel) (fd : ℕ) where
  open c use {sendmsg, malloc}

  transmit : Message → Bool → c.writer.World → Sent × Bool × c.writer.World
  transmit m cmsg w =
      let (n, w') = sendmsg fd m w in ((if is_two n then sent_ok else sent_failed), cmsg, w')

  -- With the control header at hand, `cmsghdr_p != NULL`.
  send_open : ℕ → Bool × c.writer.World → Sent × Bool × c.writer.World
  send_open d (true, w) = transmit (fd_message d) true w
  send_open d (false, w) = (sent_failed, false, w)

  -- `cmsg` says whether the static `cmsghdr_p` has been allocated.
  pub send_fd : ℤ → Bool → c.writer.World → Sent × Bool × c.writer.World
  unfolding transmit send_open
  send_fd (negsuc n) cmsg w = transmit (error_message n) cmsg w
  send_fd (pos d) true w = send_open d (true, w)
  send_fd (pos d) false w = send_open d (malloc w)

  send_code : ℤ → Bool → c.writer.World → Sent × Bool × c.writer.World
  unfolding send_fd
  send_code (pos n) cmsg w = (sent_failed, cmsg, w)
  send_code (negsuc n) cmsg w = send_fd (negsuc n) cmsg w

  -- `writen(fd, msg, n) != n`
  pub wrote_all : ℕ → Ssize → Bool
  wrote_all n (bytes m) = m == n
  wrote_all n (minus_one e) = false

  send_rest : ℕ → ℤ → Bool → Option (Ssize × c.writer.World) → Option (Sent × Bool × c.writer.World)
  unfolding send_code wrote_all
  send_rest n code cmsg none = none
  send_rest n code cmsg (some (ret, w)) =
      some (if wrote_all n ret then send_code code cmsg w else (sent_failed, cmsg, w))

  -- `none` means that the fuel of `writen` ran out.
  pub send_err : ℕ → ℤ → List ℕ → Bool → c.writer.World → Option (Sent × Bool × c.writer.World)
  unfolding send_rest
  send_err fuel code msg cmsg w =
      if ltb 0 (length msg)
      then send_rest (length msg) code cmsg (writen c.writer fd fuel msg w)
      else some (send_code code cmsg w)

-- What `recvmsg` gives: a failure, or bytes and perhaps a descriptor in the control data.
pub data Received : Type 0 where
  recv_failed : Received
  datagram : List ℕ → Option ℕ → Received

pub record Receiver : Type 1 where
  pub World : Type 0
  pub recvmsg : ℕ → ℕ → World → Received × World
  pub malloc : World → Bool × World

-- How `recv_fd` ends. `err_ret` of apue.h is `{ printf(...); return; }`: the function returns with no
-- value, and what its caller reads is undefined.
pub data Recv (W : Type 0) : Type 0 where
  returned : ℤ → W → Recv W
  undefined : W → Recv W
  out_of_fuel : Recv W

-- What the scan of the received bytes finds: no zero byte, a zero byte at the wrong place, or a
-- status.
pub data Scan : Type 0 where
  plain : Scan
  misplaced : Scan
  status : ℕ → Scan

-- `*ptr` behind the zero byte.
status_of : List ℕ → Scan
status_of [] = misplaced
status_of (st ∷ rest) = status (st % 256)

-- `for (ptr = buf; ptr < &buf[nr]; )` from the byte `i` on. Behind a status the loop ends, since `ptr`
-- is then `nr + 1` for the `nr` that is left.
pub scan : ℕ → ℕ → List ℕ → Scan
unfolding status_of
scan nr i [] = plain
scan nr i (c ∷ cs) =
    if c == 0 then if (i + 1) == (nr - 1) then status_of cs else misplaced else scan nr (i + 1) cs

-- `n != nr`
differs : ℕ → ℤ → Bool
differs nr (pos n) = if n == nr then false else true
differs nr (negsuc n) = true

module _ (r : Receiver) (maxline fd : ℕ) (error_process : List ℕ → ℤ) where
  open r use {World, recvmsg, malloc}

  -- `nr > 0 && error_process_func(STDERR_FILENO, buf, nr) != nr`
  refused : List ℕ → Bool
  unfolding differs
  refused [] = false
  refused (b ∷ bs) = differs (length (b ∷ bs)) (error_process (b ∷ bs))

  -- Behind the scan: `st` is the status, `new` the `newfd` that goes with it.
  recv_tail : (World → Recv World) → ℤ → ℕ → List ℕ → World → Recv World
  unfolding refused
  recv_tail again new st text w =
      let next = again w in
      if refused text then returned (negsuc 0) w else if ltb 0 st then returned new w else next

  -- `status == 0`: a descriptor should have come.
  recv_status : (World → Recv World) → ℕ → Option ℕ → List ℕ → World → Recv World
  unfolding recv_tail
  recv_status again zero none text w = undefined w
  recv_status again zero (some d) text w = recv_tail again (pos d) 0 text w
  recv_status again (suc n) control text w = recv_tail again (neg (suc n)) (suc n) text w

  -- A status from an earlier message is 0 or -1: with a positive one the loop has ended.
  after_scan : (World → Recv World) → List ℕ → Option ℕ → World → Scan → Recv World
  unfolding recv_status
  after_scan again bs control w plain = recv_tail again (negsuc 0) 0 bs w
  after_scan again bs control w misplaced = undefined w
  after_scan again bs control w (status st) =
      recv_status again st control (take (length bs - 2) bs) w

  -- One message.
  recv_message : (World → Recv World) → Received × World → Recv World
  recv_message again (recv_failed, w) = undefined w
  recv_message again (datagram [] control, w) = undefined w
  recv_message again (datagram (b ∷ bs) control, w) =
      after_scan again (b ∷ bs) control w (scan (length (b ∷ bs)) 0 (b ∷ bs))

  -- `for (;;)`, once `cmsghdr_p` is allocated
  recv_loop : ℕ → World → Recv World
  recv_loop zero w = out_of_fuel
  recv_loop (suc k) w = recv_message (recv_loop k) (recvmsg fd maxline w)

  recv_alloc : ℕ → Bool × World → Recv World
  recv_alloc fuel (true, w) = recv_loop fuel w
  recv_alloc fuel (false, w) = returned (negsuc 0) w

  pub recv_fd : ℕ → Bool → World → Recv World
  unfolding recv_alloc recv_loop recv_message after_scan scan
  recv_fd fuel true w = recv_loop fuel w
  recv_fd fuel false w = recv_alloc fuel (malloc w)
