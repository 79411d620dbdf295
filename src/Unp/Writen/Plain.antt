-- ===== src/Unp/Writen/Plain.antt =====
-- A writer that takes every byte: the world is what has been sent.
use unix_advanced_programing.Prelude.{
  ℕ, suc, ◌≤◌, ◌≡◌, refl, sym, ap, List, ◌∷◌, ◌++◌, arith, length, take, take_all,
}
use unix_advanced_programing.Posix.{put, Writer}
use unix_advanced_programing.Unp.Writen.Reliable.{IsReliable}

abbrev pub plain_writer : Writer
plain_writer = record { World = List ℕ; write = λ fd bs w. (put (length bs), w ++ bs) }

pub taken :
    (fd b : ℕ) (bs w : List ℕ)
    → (j : ℕ) × (w' : List ℕ) × (plain_writer.write fd (b ∷ bs) w ≡ (put (suc j), w'))
      × (suc j ≤ length (b ∷ bs))
      × (w' ≡ w ++ take (suc j) (b ∷ bs))
taken fd b bs w = (
  length bs,
  w ++ (b ∷ bs),
  refl,
  omega arith,
  ap (λ (l : List ℕ). w ++ l) (sym (take_all (length (b ∷ bs)) (b ∷ bs) (omega arith))),
)

abbrev pub plain_IsReliable : (fd : ℕ) → IsReliable plain_writer fd
plain_IsReliable fd = record { sent = λ w. w; put_law = taken fd }
