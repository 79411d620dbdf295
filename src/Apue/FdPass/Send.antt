-- ===== src/Apue/FdPass/Send.antt =====
-- `send_fd` and `send_err` of common/apue.c.
use unix_advanced_programing.Prelude.{ℕ, ◌≡◌, ◌⊎◌, Bool, List, ◌++◌}
use unix_advanced_programing.Prelude.Int.{ℤ, pos, negsuc}
use unix_advanced_programing.Posix.Sink.{IsSink}
use unix_advanced_programing.Apue.Writen.Total as Total
use unix_advanced_programing.Apue.FdPass.{
  Message, error_message, Channel, Sent, sent_ok, sent_failed,
}

module _ (c : Channel) (fd : ℕ) where
  open c use {sendmsg, malloc}

  -- Failure, or `sendmsg` took the message whole.
  abbrev pub Took : Message → c.writer.World → Sent × Bool × c.writer.World → Type 0
  Took m w o = (o.0 ≡ sent_failed) ⊎ ((o.0 ≡ sent_ok) × (sendmsg fd m w ≡ (pos 2, o.2)))

  module _ (k : IsSink c.writer fd) where
    open k use {sent}

    -- Failure, or the code is negative, and the message and then the code's message were sent.
    abbrev pub Reports : ℤ → List ℕ → c.writer.World → Sent × Bool × c.writer.World → Type 0
    Reports code msg w o =
        (o.0 ≡ sent_failed)
        ⊎ ((n : ℕ) × (v : c.writer.World) × (code ≡ negsuc n)
            × (o.0 ≡ sent_ok)
            × (sent v ≡ sent w ++ msg)
            × (sendmsg fd (error_message n) v ≡ (pos 2, o.2)))
