-- ===== src/Files/AioCopy/Background.antt =====
-- Background input and output that answers EINPROGRESS as a script says.
use unix_advanced_programing.Prelude.{
  ℕ, ◌+◌, ◌-◌, ◌≤◌, ◌<◌, ◌≡◌, ◌≢◌, refl, Bool, true, false, ◌&&◌, Option, none, some, List, [], ◌∷◌,
  arith, length, take, drop, get_elem?, if◌then◌else◌, ltb, leb, ◌==◌,
}
use unix_advanced_programing.Posix.{einval, ReadResult, got, read_err, WriteResult, put, write_err}
use unix_advanced_programing.Files.AioCopy.{Status, in_progress, done, failed, Calls}
use unix_advanced_programing.Files.AioCopy.Kernel.{Request, reading, writing, IsAio}

pub record Background : Type 0 where
  pub requests : ℕ → Option Request
  pub out : ℕ → Option ℕ
  pub busy : List Bool

abbrev pub ask : ℕ → Request → Background → Background
ask i r w = record w { requests = λ j. if i == j then some r else w.requests j }

abbrev pub answer : List Bool → Background → Status × Background
answer [] w = (done, w)
answer (true ∷ bs) w = (in_progress, record w { busy = bs })
answer (false ∷ bs) w = (done, record w { busy = bs })

abbrev pub store : ℕ → List ℕ → (ℕ → Option ℕ) → ℕ → Option ℕ
store off bs out p = if leb off p && ltb p (off + length bs) then get_elem? bs (p - off) else out p

abbrev pub ended_read : List ℕ → Option Request → Background → ReadResult × Background
ended_read input (some (reading off n)) w = (got (take n (drop off input)), w)
ended_read input (some (writing off bs)) w = (read_err einval, w)
ended_read input none w = (read_err einval, w)

abbrev pub ended_write : Option Request → Background → WriteResult × Background
ended_write (some (writing off bs)) w = (put (length bs), record w { out = store off bs w.out })
ended_write (some (reading off n)) w = (write_err einval, w)
ended_write none w = (write_err einval, w)

abbrev pub background : List ℕ → Calls
background input = record {
  World = Background;
  aio_read = λ i off n w. ask i (reading off n) w;
  aio_write = λ i off bs w. ask i (writing off bs) w;
  aio_error = λ i w. answer w.busy w;
  read_return = λ i w. ended_read input (w.requests i) w;
  write_return = λ i w. ended_write (w.requests i) w;
  aio_suspend = λ w. w;
}

pub ask_law :
    (i : ℕ) (r : Request) (w : Background)
    → ((ask i r w).requests i ≡ some r)
      × ((j : ℕ) → i ≢ j → (ask i r w).requests j ≡ w.requests j)
      × ((p : ℕ) → (ask i r w).out p ≡ w.out p)
      × (length (ask i r w).busy ≤ length w.busy)
ask_law i r w = (ground arith, (λ j ne. ground arith), (λ p. refl), omega arith)

answered :
    (busy : List Bool) (w w' : Background) (st : Status)
    → w.busy ≡ busy
    → answer busy w ≡ (st, w')
    → (st ≢ failed)
      × ((j : ℕ) → w'.requests j ≡ w.requests j)
      × ((p : ℕ) → w'.out p ≡ w.out p)
      × (length w'.busy ≤ length w.busy)
      × (st ≡ in_progress → length w'.busy < length w.busy)
answered [] w w' st b e = ((λ x. cc), (λ j. cc), (λ p. cc), ground arith, (λ x. cc))
answered (true ∷ bs) w w' st b e =
    ((λ x. cc), (λ j. ground arith), (λ p. ground arith), ground arith, (λ x. ground arith))
answered (false ∷ bs) w w' st b e =
    ((λ x. cc), (λ j. ground arith), (λ p. ground arith), ground arith, (λ x. cc))

pub answer_law :
    (i : ℕ) (w w' : Background) (st : Status) (r : Request)
    → answer w.busy w ≡ (st, w')
    → w.requests i ≡ some r
    → (st ≢ failed)
      × ((j : ℕ) → w'.requests j ≡ w.requests j)
      × ((p : ℕ) → w'.out p ≡ w.out p)
      × (length w'.busy ≤ length w.busy)
      × (st ≡ in_progress → length w'.busy < length w.busy)
answer_law i w w' st r e asks = answered w.busy w w' st refl e

pub ended_read_law :
    (input : List ℕ) (i off n : ℕ) (w : Background)
    → w.requests i ≡ some (reading off n)
    → ((ended_read input (w.requests i) w).0 ≡ got (take n (drop off input)))
      × ((j : ℕ) → (ended_read input (w.requests i) w).1.requests j ≡ w.requests j)
      × ((p : ℕ) → (ended_read input (w.requests i) w).1.out p ≡ w.out p)
      × (length (ended_read input (w.requests i) w).1.busy ≤ length w.busy)
ended_read_law input i off n w asks =
    let e : ended_read input (w.requests i) w ≡ (got (take n (drop off input)), w) = rw asks refl in
    rw e (refl, (λ j. refl), (λ p. refl), omega arith)

pub ended_write_law :
    (i off : ℕ) (bs : List ℕ) (w : Background)
    → w.requests i ≡ some (writing off bs)
    → ((ended_write (w.requests i) w).0 ≡ put (length bs))
      × ((j : ℕ) → (ended_write (w.requests i) w).1.requests j ≡ w.requests j)
      × ((p : ℕ)
          → (ended_write (w.requests i) w).1.out p
            ≡ (if leb off p && ltb p (off + length bs) then get_elem? bs (p - off) else w.out p))
      × (length (ended_write (w.requests i) w).1.busy ≤ length w.busy)
ended_write_law i off bs w asks =
    let e : ended_write (w.requests i) w
        ≡ (put (length bs), record w { out = store off bs w.out }) =
      rw asks refl in
    rw e (refl, (λ j. refl), (λ p. refl), omega arith)

abbrev pub background_IsAio : (input : List ℕ) → IsAio (background input) input
background_IsAio input = record {
  asked = λ w. w.requests;
  output = λ w. w.out;
  patience = λ w. length w.busy;
  read_law = λ i off n w. ask_law i (reading off n) w;
  write_law = λ i off bs w. ask_law i (writing off bs) w;
  error_law = answer_law;
  read_return_law = ended_read_law input;
  write_return_law = ended_write_law;
  suspend_law = λ w. ((λ j. refl), (λ p. refl), omega arith);
}
