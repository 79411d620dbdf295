-- ===== src/Posix/Script.antt =====
-- Kernels that follow a script: concrete readers and writers that meet the stream laws.
use unix_advanced_programing.Prelude.{
  ℕ, zero, suc, ◌≤◌, ◌<◌, ◌≡◌, refl, List, [], ◌∷◌, ◌++◌, arith, length, take, drop, length-take,
  take-append-drop,
}
use mathlib.Core.List.{append_assoc}
use unix_advanced_programing.Posix.{Errno, eintr, other, ReadResult, got, read_err, Reader}
use unix_advanced_programing.Posix.Stream.{IsStream}

-- One event for each call: the peer's next bytes are there, a signal comes, or the call fails.
pub data Event : Type 0 where
  chunk : ℕ → List ℕ → Event
  signal : Event
  fail : ℕ → Event

-- What is left of a chunk stays for the next call.
abbrev pub rest : List ℕ → List Event → List Event
rest [] s = s
rest (c ∷ cs) s = chunk c cs ∷ s

abbrev pub script_read : ℕ → List Event → ReadResult × List Event
script_read n [] = (got [], [])
script_read zero (chunk b bs ∷ s) = (got [], chunk b bs ∷ s)
script_read (suc n) (chunk b bs ∷ s) = (got (b ∷ take n bs), rest (drop n bs) s)
script_read n (signal ∷ s) = (read_err eintr, s)
script_read n (fail e ∷ s) = (read_err (other e), s)

abbrev pub script_reader : Reader
script_reader = record { World = List Event; read = λ fd n w. script_read n w }

abbrev pub script_pending : List Event → List ℕ
script_pending [] = []
script_pending (chunk b bs ∷ s) = b ∷ bs ++ script_pending s
script_pending (signal ∷ s) = script_pending s
script_pending (fail e ∷ s) = script_pending s

abbrev pub signals : List Event → ℕ
signals [] = 0
signals (chunk b bs ∷ s) = signals s
signals (signal ∷ s) = suc (signals s)
signals (fail e ∷ s) = signals s

pending-rest : (bs : List ℕ) (s : List Event) → script_pending (rest bs s) ≡ bs ++ script_pending s
pending-rest [] s = refl
pending-rest (b ∷ bs) s = refl

signals-rest : (bs : List ℕ) (s : List Event) → signals (rest bs s) ≡ signals s
signals-rest [] s = refl
signals-rest (b ∷ bs) s = refl

split_pending :
    (n : ℕ) (bs : List ℕ) (s : List Event)
    → bs ++ script_pending s ≡ take n bs ++ script_pending (rest (drop n bs) s)
split_pending n bs s = rw (pending-rest (drop n bs) s, ← append_assoc, take-append-drop n bs)

pub script_got :
    (n : ℕ) (w w' : List Event) (bs : List ℕ)
    → script_read n w ≡ (got bs, w')
    → (script_pending w ≡ bs ++ script_pending w')
      × (length bs ≤ n)
      × (signals w' ≤ signals w)
      × (bs ≡ [] → 0 < n → script_pending w ≡ [])
script_got n [] w' bs e = ground arith
script_got zero (chunk b cs ∷ s) w' bs e = ground arith
script_got (suc n) (chunk b cs ∷ s) w' bs e =
    ground (arith, split_pending n cs s, length-take n cs, signals-rest (drop n cs) s)
script_got zero (signal ∷ s) w' bs e = ground arith
script_got (suc n) (signal ∷ s) w' bs e = ground arith
script_got zero (fail k ∷ s) w' bs e = ground arith
script_got (suc n) (fail k ∷ s) w' bs e = ground arith

pub script_err :
    (n : ℕ) (w w' : List Event) (e : Errno)
    → script_read n w ≡ (read_err e, w')
    → (script_pending w' ≡ script_pending w)
      × (signals w' ≤ signals w)
      × (e ≡ eintr → signals w' < signals w)
script_err n [] w' e h = ground arith
script_err zero (chunk b cs ∷ s) w' e h = ground arith
script_err (suc n) (chunk b cs ∷ s) w' e h = ground arith
script_err zero (signal ∷ s) w' e h = ground arith
script_err (suc n) (signal ∷ s) w' e h = ground arith
script_err zero (fail k ∷ s) w' e h = ground arith
script_err (suc n) (fail k ∷ s) w' e h = ground arith

-- The script meets the laws at every descriptor.
abbrev pub script_IsStream : (fd : ℕ) → IsStream script_reader fd
script_IsStream fd = record {
  pending = script_pending;
  patience = signals;
  got_law = script_got;
  err_law = script_err;
}
