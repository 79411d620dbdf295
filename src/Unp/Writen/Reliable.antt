-- ===== src/Unp/Writen/Reliable.antt =====
-- `Writen` of util/unp.c on a stream whose writes do not fail.
use mathlib.Core.List.{append-nil, append_assoc}
use unix_advanced_programing.Prelude.{
  ℕ, zero, suc, ◌-◌, ◌^◌, ◌≤◌, ◌<◌, ◌≡◌, refl, sym, ap, ◌∙◌, false, some, List, [], ◌∷◌, ◌++◌, ◌==◌,
  arith, length, take, drop, length-drop, take-append-drop,
}
use unix_advanced_programing.Posix.{bytes, put, Writer, size_sub-eq-sub}
use unix_advanced_programing.Unp.Writen.{writen_round, writen_loop, writen}

-- A write takes at least one byte of what it is given, from the front.
pub record IsReliable (s : Writer) (fd : ℕ) : Type 0 where
  pub sent : s.World → List ℕ
  pub put_law :
      (b : ℕ) (bs : List ℕ) (w : s.World)
      → (j : ℕ) × (w' : s.World) × (s.write fd (b ∷ bs) w ≡ (put (suc j), w'))
        × (suc j ≤ length (b ∷ bs))
        × (sent w' ≡ sent w ++ take (suc j) (b ∷ bs))

module _ {s : Writer} {fd : ℕ} (k : IsReliable s fd) where
  open s use {World}
  open k use {sent, put_law}

  loop_step :
      (n j i nleft b : ℕ) (bs : List ℕ) (w w1 : World)
      → length (b ∷ bs) ≡ nleft
      → suc i ≤ nleft
      → nleft < 2 ^ 64
      → s.write fd (b ∷ bs) w ≡ (put (suc i), w1)
      → writen_loop s fd n (suc j) nleft (b ∷ bs) w
        ≡ writen_loop s fd n j (nleft - suc i) (drop (suc i) (b ∷ bs)) w1
  unfolding writen_loop writen_round
  loop_step n j i nleft b bs w w1 len fits small e =
      let more : (nleft == 0) ≡ false = ground arith in
      rw (more, writen_loop, e, writen_round, size_sub-eq-sub nleft (suc i) fits small)

  loop_sends :
      (n j nleft : ℕ) (bs : List ℕ) (w : World)
      → length bs ≡ nleft
      → nleft ≤ n
      → n < 2 ^ 64
      → nleft < j
      → (w' : World) × (writen_loop s fd n j nleft bs w ≡ some (bytes n, w'))
        × (sent w' ≡ sent w ++ bs)
  unfolding writen_loop writen_round
  loop_sends n zero nleft bs w len le small h = absurd (omega arith)
  loop_sends n (suc j) nleft [] w len le small h =
      let z : nleft ≡ 0 = omega (arith, len) in
      (
        w,
        rw (z, writen_loop)
            (ap (λ (m : ℕ). some (bytes m, w)) (omega (arith, size_sub-eq-sub n 0))),
        sym (append-nil (sent w)),
      )
  loop_sends n (suc j) nleft (b ∷ bs) w len le small h =
      let (i, w1, e, fits, out) = put_law b bs w in
      let (w2, e2, out2) =
        loop_sends n j (nleft - suc i) (drop (suc i) (b ∷ bs)) w1
          (omega (arith, length-drop (suc i) (b ∷ bs), len)) (omega arith) small (omega arith) in
      (
        w2,
        loop_step n j i nleft b bs w w1 len (omega (arith, len, fits)) (omega arith) e ∙ e2,
        out2
            ∙ ap (λ l. l ++ drop (suc i) (b ∷ bs)) out
            ∙ append_assoc (sent w) (take (suc i) (b ∷ bs)) (drop (suc i) (b ∷ bs))
            ∙ ap (λ l. sent w ++ l) (take-append-drop (suc i) (b ∷ bs)),
      )

  -- With fuel for every byte `Writen` sends them all and returns their number.
  pub writen_sends :
      (fuel : ℕ) (bs : List ℕ) (w : World)
      → length bs < 2 ^ 64
      → length bs < fuel
      → (w' : World) × (writen s fd fuel bs w ≡ some (bytes (length bs), w'))
        × (sent w' ≡ sent w ++ bs)
  unfolding writen
  writen_sends fuel bs w small enough =
      loop_sends (length bs) fuel (length bs) bs w refl (omega arith) small enough
