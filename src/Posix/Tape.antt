-- ===== src/Posix/Tape.antt =====
-- A writer that takes one byte for each call, and follows the events of a script besides: it meets the
-- stream laws.
use unix_advanced_programing.Prelude.{
  ℕ, ◌≤◌, ◌<◌, ◌≡◌, List, [], ◌∷◌, ◌++◌, arith, length, take, take-nil,
}
use mathlib.Core.List.{append-nil}
use unix_advanced_programing.Posix.{Errno, eintr, other, WriteResult, put, write_err, Writer}
use unix_advanced_programing.Posix.Sink.{IsSink}
use unix_advanced_programing.Posix.Script.{Event, chunk, signal, fail, signals}

abbrev pub Tape : Type 0
Tape = List ℕ × List Event

abbrev pub accept_byte : List ℕ → Tape → WriteResult × Tape
accept_byte [] w = (put 0, w)
accept_byte (b ∷ bs) (out, s) = (put 1, (out ++ b ∷ [], s))

abbrev pub tape_write : List ℕ → Tape → WriteResult × Tape
tape_write bs (out, signal ∷ s) = (write_err eintr, (out, s))
tape_write bs (out, fail e ∷ s) = (write_err (other e), (out, s))
tape_write bs (out, chunk c cs ∷ s) = accept_byte bs (out, chunk c cs ∷ s)
tape_write bs (out, []) = accept_byte bs (out, [])

abbrev pub tape_writer : Writer
tape_writer = record { World = Tape; write = λ fd bs w. tape_write bs w }

abbrev pub tape_patience : Tape → ℕ
tape_patience (out, s) = signals s

accept_put :
    (bs : List ℕ) (w w' : Tape) (k : ℕ)
    → accept_byte bs w ≡ (put k, w')
    → (w'.0 ≡ w.0 ++ take k bs) × (k ≤ length bs) × (tape_patience w' ≤ tape_patience w)
accept_put [] (out, s) w' k e = grind (arith, take-nil, append-nil)
accept_put (b ∷ bs) (out, s) w' k e = grind arith

pub tape_put :
    (bs : List ℕ) (w w' : Tape) (k : ℕ)
    → tape_write bs w ≡ (put k, w')
    → (w'.0 ≡ w.0 ++ take k bs) × (k ≤ length bs) × (tape_patience w' ≤ tape_patience w)
tape_put bs (out, signal ∷ s) w' k e = ground arith
tape_put bs (out, fail n ∷ s) w' k e = ground arith
tape_put bs (out, chunk c cs ∷ s) w' k e = accept_put bs (out, chunk c cs ∷ s) w' k e
tape_put bs (out, []) w' k e = accept_put bs (out, []) w' k e

pub tape_err :
    (bs : List ℕ) (w w' : Tape) (e : Errno)
    → tape_write bs w ≡ (write_err e, w')
    → (w'.0 ≡ w.0)
      × (tape_patience w' ≤ tape_patience w)
      × (e ≡ eintr → tape_patience w' < tape_patience w)
tape_err bs (out, signal ∷ s) w' e h = ground arith
tape_err bs (out, fail n ∷ s) w' e h = ground arith
tape_err [] (out, chunk c cs ∷ s) w' e h = ground arith
tape_err (b ∷ bs) (out, chunk c cs ∷ s) w' e h = ground arith
tape_err [] (out, []) w' e h = ground arith
tape_err (b ∷ bs) (out, []) w' e h = ground arith

abbrev pub tape_IsSink : (fd : ℕ) → IsSink tape_writer fd
tape_IsSink fd = record {
  sent = λ w. w.0;
  patience = tape_patience;
  put_law = tape_put;
  err_law = tape_err;
}
