-- ===== src/Posix/Plain.antt =====
-- A reader whose reads never fail: the world is the pending bytes.
use unix_advanced_programing.Prelude.{
  ℕ, zero, suc, ◌≤◌, ◌<◌, ◌≡◌, refl, sym, List, [], ◌∷◌, ◌++◌, arith, length, take, drop,
  length-take, take-append-drop,
}
use unix_advanced_programing.Posix.{Errno, eintr, ReadResult, got, read_err, Reader}
use unix_advanced_programing.Posix.Stream.{IsStream}

abbrev pub plain_read : ℕ → List ℕ → ReadResult × List ℕ
plain_read n w = (got (take n w), drop n w)

abbrev pub plain_reader : Reader
plain_reader = record { World = List ℕ; read = λ fd n w. plain_read n w }

plain_all : (n : ℕ) (w : List ℕ) → w ≡ take n w ++ drop n w
plain_all n w = sym (take-append-drop n w)

plain_end : (n : ℕ) (w : List ℕ) → take n w ≡ [] → 0 < n → w ≡ []
plain_end n [] e lt = refl
plain_end zero (b ∷ w) e lt = absurd (omega arith)
plain_end (suc n) (b ∷ w) e lt = ground arith

pub plain_got :
    (n : ℕ) (w w' bs : List ℕ)
    → plain_read n w ≡ (got bs, w')
    → (w ≡ bs ++ w') × (length bs ≤ n) × (0 ≤ 0) × (bs ≡ [] → 0 < n → w ≡ [])
plain_got n w w' bs e = ground (arith, plain_all n w, length-take n w, plain_end n w)

pub plain_err :
    (n : ℕ) (w w' : List ℕ) (e : Errno)
    → plain_read n w ≡ (read_err e, w')
    → (w' ≡ w) × (0 ≤ 0) × (e ≡ eintr → 0 < 0)
plain_err n w w' e h = ground arith

abbrev pub plain_IsStream : (fd : ℕ) → IsStream plain_reader fd
plain_IsStream fd = record {
  pending = λ w. w;
  patience = λ w. 0;
  got_law = plain_got;
  err_law = plain_err;
}
