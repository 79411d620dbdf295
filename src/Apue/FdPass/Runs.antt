-- ===== src/Apue/FdPass/Runs.antt =====
-- Runs of `recv_fd` of common/apue.c on concrete messages.
use unix_advanced_programing.Prelude.{ℕ, ◌≡◌, refl, true, none, List, [], ◌∷◌, length, take}
use unix_advanced_programing.Prelude.Int.{ℤ, pos, negsuc}
use unix_advanced_programing.Apue.FdPass.{
  Received, recv_failed, datagram, Receiver, returned, recv_fd, recv_loop, recv_message, after_scan,
  scan, recv_tail, refused, differs,
}

-- As much of a message as there is room for.
abbrev cut : ℕ → Received → Received
cut n recv_failed = recv_failed
cut n (datagram bs control) = datagram (take n bs) control

abbrev receive : ℕ → List Received → Received × List Received
receive n [] = (recv_failed, [])
receive n (m ∷ ms) = (cut n m, ms)

abbrev socket : Receiver
socket = record { World = List Received; recvmsg = λ fd n w. receive n w; malloc = λ w. (true, w) }

abbrev take_all_of : List ℕ → ℤ
take_all_of bs = pos (length bs)

-- The caller's function takes nothing of the one byte.
abbrev takes_nothing : List ℕ → ℤ
takes_nothing bs = pos 0

one_byte_run :
    recv_fd socket 1 3 takes_nothing 1 true (datagram (110 ∷ 0 ∷ 13 ∷ []) none ∷ [])
    ≡ returned (negsuc 0) []
unfolding recv_fd recv_loop recv_message after_scan scan recv_tail refused differs
one_byte_run = refl
