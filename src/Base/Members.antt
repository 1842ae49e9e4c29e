-- ===== src/Base/Members.antt =====
-- Membership, distinctness and removal in lists of numbers.
use Prim.Native.Nat.{ℕ, zero, suc, ◌<◌, ◌≤◌}
use mathlib.Core.Path.{◌≡◌, refl, ap}
use mathlib.Core.Logic.{inl, inr}
use mathlib.Core.Bool.{true, false, not, ◌&&◌}
use mathlib.Core.List.{List, [], ◌∷◌, ◌++◌}
use native.Mathlib.Omega.{arith}
use cs503_lab.Base.Tests.{◌==◌, Bool-cases}
use cs503_lab.Base.Lists.{has, has-append, Distinct, remove, length}

pub has-remove :
    (a p : ℕ) (xs : List ℕ) → Distinct xs → has a (remove p xs) ≡ (has a xs && not (a == p))
has-remove a p [] d = refl
has-remove a p (x ∷ xs) d = ground (arith, has-remove a p xs d.1)

pub has-remove-of : (a p : ℕ) (xs : List ℕ) → has a (remove p xs) ≡ true → has a xs ≡ true
has-remove-of a p [] h = h
has-remove-of a p (x ∷ xs) h = ground (arith, has-remove-of a p xs)

pub Distinct-remove : (p : ℕ) (xs : List ℕ) → Distinct xs → Distinct (remove p xs)
Distinct-remove p [] d = tt
Distinct-remove p (x ∷ xs) d = elim (Bool-cases (p == x)) [
  | inl e ↦ rw e d.1
  | inr e ↦ rw e (ground (arith, has-remove-of x p xs), Distinct-remove p xs d.1)
]

pub length-remove : (p : ℕ) (xs : List ℕ) → has p xs ≡ true → suc (length (remove p xs)) ≡ length xs
length-remove p [] h = absurd (cc)
length-remove p (x ∷ xs) h = ground (arith, length-remove p xs)

-- Where a member first stands.
pub record Split (p : ℕ) (xs : List ℕ) : Type 0 where
  pub front : List ℕ
  pub back : List ℕ
  pub whole : xs ≡ front ++ p ∷ back
  pub removed : remove p xs ≡ front ++ back

pub Split-at : (p : ℕ) (xs : List ℕ) → has p xs ≡ true → Split p xs
Split-at p [] h = absurd (cc)
Split-at p (x ∷ xs) h = elim (Bool-cases (p == x)) [
  | inl e ↦ record { front = []; back = xs; whole = ground arith; removed = rw e }
  | inr e ↦
      let r = Split-at p xs (ground arith) in
      record {
        front = x ∷ r.front;
        back = r.back;
        whole = ap (λ l. x ∷ l) r.whole;
        removed = rw e (ap (λ l. x ∷ l) r.removed);
      }
]

pub Distinct-append :
    (xs ys : List ℕ)
    → Distinct xs
    → Distinct ys
    → ((a : ℕ) → has a xs ≡ true → has a ys ≡ false)
    → Distinct (xs ++ ys)
Distinct-append [] ys d e apart = e
Distinct-append (x ∷ xs) ys d e apart = (
  ground (arith, has-append x xs ys, apart x),
  Distinct-append xs ys d.1 e (λ a h. apart a (ground arith)),
)

-- The last of a list that is not empty, and the first of one with an end put behind it.
pub record Front (a : ℕ) (xs : List ℕ) : Type 0 where
  pub init : List ℕ
  pub last : ℕ
  pub whole : a ∷ xs ≡ init ++ last ∷ []
  pub mem : has last (a ∷ xs) ≡ true

pub Front-view : (a : ℕ) (xs : List ℕ) → Front a xs
Front-view a [] = record { init = []; last = a; whole = refl; mem = ground arith }
Front-view a (x ∷ xs) =
    let r = Front-view x xs in
    record {
      init = a ∷ r.init;
      last = r.last;
      whole = ap (λ l. a ∷ l) r.whole;
      mem = ground (arith, r.mem);
    }

pub record Back (xs : List ℕ) (z : ℕ) : Type 0 where
  pub first : ℕ
  pub rest : List ℕ
  pub whole : xs ++ z ∷ [] ≡ first ∷ rest
  pub mem : has first (xs ++ z ∷ []) ≡ true

pub Back-view : (xs : List ℕ) (z : ℕ) → Back xs z
Back-view [] z = record { first = z; rest = []; whole = refl; mem = ground arith }
Back-view (x ∷ xs) z = record { first = x; rest = xs ++ z ∷ []; whole = refl; mem = ground arith }

pub remove-append_last : (p : ℕ) (xs : List ℕ) → has p xs ≡ false → remove p (xs ++ p ∷ []) ≡ xs
remove-append_last p [] h = ground arith
remove-append_last p (x ∷ xs) h = ground (arith, remove-append_last p xs)

pub Distinct-insert :
    (p : ℕ) (xs ys : List ℕ)
    → Distinct (xs ++ ys)
    → has p (xs ++ ys) ≡ false
    → Distinct (xs ++ p ∷ ys)
Distinct-insert p [] ys d out = (out, d)
Distinct-insert p (x ∷ xs) ys d out = (
  ground (arith, has-append x xs ys, has-append x xs (p ∷ ys)),
  Distinct-insert p xs ys d.1 (ground arith),
)

-- Distinct numbers below `n` are at most `n`.
pub length-le_of_Distinct :
    (n : ℕ) (xs : List ℕ) → Distinct xs → ((a : ℕ) → has a xs ≡ true → a < n) → length xs ≤ n
length-le_of_Distinct zero [] d lt = omega arith
length-le_of_Distinct zero (x ∷ xs) d lt = absurd (elim (lt x (ground arith)) [ ])
length-le_of_Distinct (suc n) xs d lt = elim (Bool-cases (has n xs)) [
  | inl e ↦ omega (
    arith,
    length-remove n xs e,
    length-le_of_Distinct n (remove n xs) (Distinct-remove n xs d)
        (λ a m. ground (arith, lt a (has-remove-of a n xs m), has-remove a n xs d)),
  )
  | inr e ↦ omega (arith, length-le_of_Distinct n xs d (λ a m. ground (arith, lt a m)))
]
