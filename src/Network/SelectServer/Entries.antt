-- ===== src/Network/SelectServer/Entries.antt =====
-- The table of the server with `select`: which descriptors its entries hold, and which entries are free.
use unix_advanced_programing.Prelude.{
  ℕ, zero, suc, ◌+◌, ◌≡◌, ◌≢◌, refl, sym, ap, subst, ◌⊎◌, inl, inr, Bool, true, false, Option, none,
  some, List, [], ◌∷◌, get_elem?, set, replicate, ◌==◌, if◌then◌else◌, arith,
}
use unix_advanced_programing.Prelude.Int.{ℤ, pos, negsuc}
use unix_advanced_programing.Network.SelectServer.{first_free}

abbrev pub ones : Bool → ℕ
ones b = if b then 1 else 0

abbrev one_of : ℕ → ℤ → ℕ
one_of m (pos fd) = ones (m == fd)
one_of m (negsuc n) = 0

-- How many entries of the table hold a descriptor.
abbrev pub holders : ℕ → List ℤ → ℕ
holders m [] = 0
holders m (e ∷ client) = one_of m e + holders m client

pub holders-set :
    (m i : ℕ) (a b : ℤ) (client : List ℤ)
    → get_elem? client i ≡ some a
    → holders m (set client i b) + one_of m a ≡ holders m client + one_of m b
holders-set m i a b [] e = cc
holders-set m zero a b (x ∷ client) e = let is : x ≡ a = cc in rw is (omega arith)
holders-set m (suc i) a b (x ∷ client) e = omega (arith, holders-set m i a b client e)

pub set_free :
    (i j m : ℕ) (client : List ℤ)
    → get_elem? (set client i (negsuc 0)) j ≡ some (pos m)
    → get_elem? client j ≡ some (pos m)
set_free i j m [] e = e
set_free zero zero m (x ∷ client) e = let no : negsuc 0 ≡ pos m = cc in cc
set_free zero (suc j) m (x ∷ client) e = e
set_free (suc i) zero m (x ∷ client) e = e
set_free (suc i) (suc j) m (x ∷ client) e = set_free i j m client e

pub set_used :
    (i j m fd : ℕ) (client : List ℤ)
    → get_elem? (set client i (pos fd)) j ≡ some (pos m)
    → (j ≡ i) ⊎ (get_elem? client j ≡ some (pos m))
set_used i j m fd [] e = inr e
set_used zero zero m fd (x ∷ client) e = inl refl
set_used zero (suc j) m fd (x ∷ client) e = inr e
set_used (suc i) zero m fd (x ∷ client) e = inr e
set_used (suc i) (suc j) m fd (x ∷ client) e = elim (set_used i j m fd client e) [
  | inl same ↦ inl (ap suc same)
  | inr other ↦ inr other
]

next_free :
    (fd i : ℕ) (client : List ℤ) (o : Option ℕ)
    → first_free client ≡ o
    → (elim o [ none ↦ none | some j ↦ some (suc j) ]) ≡ some i
    → (j : ℕ) × (i ≡ suc j) × (first_free client ≡ some j)
next_free fd i client none d is = cc
next_free fd i client (some j) d is = (j, cc, d)

pub first_free-elem :
    (client : List ℤ) (i : ℕ)
    → first_free client ≡ some i
    → (n : ℕ) × (get_elem? client i ≡ some (negsuc n))
unfolding first_free
first_free-elem [] i e = cc
first_free-elem (negsuc n ∷ client) i e =
    let is : i ≡ 0 = cc in
    (n, subst (λ l. get_elem? (negsuc n ∷ client) l ≡ some (negsuc n)) (sym is) refl)
first_free-elem (pos fd ∷ client) i e =
    let (j, is, d) = next_free fd i client (first_free client) refl e in
    let (n, at) = first_free-elem client j d in
    (n, subst (λ l. get_elem? (pos fd ∷ client) l ≡ some (negsuc n)) (sym is) at)

-- A new member, and a member that goes: the set and the table keep step.
pub put_once :
    (b al : Bool) (l h h' : ℕ)
    → h' + 0 ≡ h + ones b
    → ones al ≡ l + h
    → (b ≡ true → al ≡ false)
    → ones (if b then true else al) ≡ l + h'
put_once true true l h h' e o fresh = let no : true ≡ false = fresh refl in cc
put_once true false l h h' e o fresh = omega arith
put_once false al l h h' e o fresh = omega arith

pub drop_once :
    (b al : Bool) (l h h' : ℕ)
    → h' + ones b ≡ h + 0
    → ones al ≡ l + h
    → ones (if b then false else al) ≡ l + h'
drop_once true true l h h' e o = omega arith
drop_once true false l h h' e o = omega arith
drop_once false al l h h' e o = omega arith

pub no_holders : (n m : ℕ) → holders m (replicate n (negsuc 0)) ≡ 0
no_holders zero m = refl
no_holders (suc n) m = omega (arith, no_holders n m)

pub all_free : (n i m : ℕ) → get_elem? (replicate n (negsuc 0)) i ≢ some (pos m)
all_free zero i m e = cc
all_free (suc n) zero m e = let no : negsuc 0 ≡ pos m = cc in cc
all_free (suc n) (suc i) m e = all_free n i m e
