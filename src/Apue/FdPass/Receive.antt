-- ===== src/Apue/FdPass/Receive.antt =====
-- What `recv_fd` of common/apue.c returns.
use unix_advanced_programing.Prelude.{
  ℕ, suc, ◌+◌, ◌-◌, ◌<◌, ◌≡◌, refl, ◌≢◌, true, false, Option, none, List, [], ◌∷◌, ◌++◌, arith,
  length, take, length-append, take-append_self, ap, ◌∙◌,
}
use unix_advanced_programing.Prelude.Int.{ℤ, pos, negsuc}
use unix_advanced_programing.Apue.FdPass.{
  Message, error_message, fd_message, status_byte, Received, datagram, Receiver, Recv, returned,
  status, scan, differs, refused, recv_tail, recv_status, recv_message, after_scan, recv_loop,
  recv_fd,
}

-- The bytes and the control data of a message, as the other end receives them together.
abbrev pub wire : Message → Received
wire m = datagram (m.buf0 ∷ m.buf1 ∷ []) m.control

-- No zero byte in the text.
abbrev pub IsText : List ℕ → Type 0
IsText [] = Unit {0}
IsText (c ∷ cs) = (c ≢ 0) × IsText cs

scan-text :
    (text : List ℕ) (st n i : ℕ)
    → IsText text
    → n ≡ i + length text + 2
    → st < 256
    → scan n i (text ++ 0 ∷ st ∷ []) ≡ status st
unfolding scan
scan-text [] st n i t len small = ground arith
scan-text (c ∷ cs) st n i t len small = ground (arith, scan-text cs st n (i + 1) t.1)

status_byte-eq : (n : ℕ) → n < 255 → status_byte (suc n) ≡ suc n
unfolding status_byte
status_byte-eq n small = ground arith

take-text :
    (text : List ℕ) (st : ℕ) → take (length (text ++ 0 ∷ st ∷ []) - 2) (text ++ 0 ∷ st ∷ []) ≡ text
take-text text st =
    let n : length (text ++ 0 ∷ st ∷ []) - 2 ≡ length text =
      omega (arith, length-append text (0 ∷ st ∷ [])) in
    rw n (take-append_self text (0 ∷ st ∷ []))

module _ (r : Receiver) (maxline fd : ℕ) (error_process : List ℕ → ℤ) where
  open r use {World, recvmsg}

  -- A text with a status behind it goes on to the test of the text.
  message-status :
      (again : World → Recv World) (text : List ℕ) (st : ℕ) (control : Option ℕ) (w : World)
      → IsText text
      → st < 256
      → recv_message r maxline fd error_process again (datagram (text ++ 0 ∷ st ∷ []) control, w)
        ≡ recv_status r maxline fd error_process again st control text w
  unfolding recv_message after_scan
  message-status again [] st control w t small = rw (scan-text [] st 2 0 t (omega arith) small)
  message-status again (c ∷ cs) st control w t small =
      let all : length ((c ∷ cs) ++ 0 ∷ st ∷ []) ≡ length (c ∷ cs) + 2 =
        length-append (c ∷ cs) (0 ∷ st ∷ []) in
      rw (
        scan-text (c ∷ cs) st (length ((c ∷ cs) ++ 0 ∷ st ∷ [])) 0 t (omega (arith, all)) small,
        take-text (c ∷ cs) st,
      )

  fd-loop :
      (k : ℕ) (w : World)
      → recv_fd r maxline fd error_process k true w ≡ recv_loop r maxline fd error_process k w
  unfolding recv_fd
  fd-loop k w = refl

  not_refused :
      (text : List ℕ)
      → (text ≢ [] → error_process text ≡ pos (length text))
      → refused r maxline fd error_process text ≡ false
  unfolding refused
  not_refused [] takes = refl
  not_refused (c ∷ cs) takes = rw (takes (λ e. cc), differs) (ground arith)

  status-returns :
      (again : World → Recv World) (text : List ℕ) (st : ℕ) (control : Option ℕ) (w : World)
      → (text ≢ [] → error_process text ≡ pos (length text))
      → recv_status r maxline fd error_process again (suc st) control text w
        ≡ returned (negsuc st) w
  unfolding recv_status recv_tail
  status-returns again text st control w takes = rw (not_refused text takes) (ground arith)

  pub recv_fd_error :
      (k : ℕ) (text : List ℕ) (st : ℕ) (control : Option ℕ) (w w' : World)
      → recvmsg fd maxline w ≡ (datagram (text ++ 0 ∷ suc st ∷ []) control, w')
      → IsText text
      → suc st < 256
      → (text ≢ [] → error_process text ≡ pos (length text))
      → recv_fd r maxline fd error_process (suc k) true w ≡ returned (negsuc st) w'
  unfolding recv_loop
  recv_fd_error k text st control w w' e t small takes =
      fd-loop (suc k) w
      ∙ rw e
          (message-status (recv_loop r maxline fd error_process k) text (suc st) control w' t small)
      ∙ status-returns (recv_loop r maxline fd error_process k) text st control w' takes

  -- The code that `send_fd` puts into its message is what `recv_fd` returns, for the codes -1 to -255.
  pub recv_fd-error_message :
      (k n : ℕ) (w w' : World)
      → n < 255
      → recvmsg fd maxline w ≡ (wire (error_message n), w')
      → recv_fd r maxline fd error_process (suc k) true w ≡ returned (negsuc n) w'
  unfolding error_message
  recv_fd-error_message k n w w' small e =
      let byte : status_byte (suc n) ≡ suc n = status_byte-eq n small in
      recv_fd_error k [] n none w w' (e ∙ ap (λ b. (datagram (0 ∷ b ∷ []) none, w')) byte) tt
        (omega arith) (λ ne. absurd (ne refl))

  -- A descriptor that comes is dropped: `recv_fd` goes on to the next message.
  pub recv_fd-fd_message :
      (k d : ℕ) (w w' : World)
      → recvmsg fd maxline w ≡ (wire (fd_message d), w')
      → recv_fd r maxline fd error_process (suc k) true w
        ≡ recv_fd r maxline fd error_process k true w'
  unfolding recv_fd fd_message refused recv_tail
  recv_fd-fd_message k d w w' e = rw e
