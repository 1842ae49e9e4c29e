-- ===== src/Strings/Copy.antt =====
-- lib/strncpy.c and bzero.c on strings in memory.
use cs503_lab.Base.{
  ℕ, zero, suc, ◌+◌, ◌≤◌, ◌<◌, ◌≡◌, refl, ap, ◌∙◌, ◌⊎◌, inl, inr, true, false, List, [], ◌∷◌,
  length, arith, ◌==◌, put, put_self, put_ne, Bool-cases,
}
use cs503_lab.Strings.{bzero, strncpy}
use cs503_lab.Strings.Compare.{IsStr, char_at}

-- `x` is none of the `n` bytes from `a` on.
abbrev Outside : ℕ → ℕ → ℕ → Type 0
Outside a n x = (x < a) ⊎ (a + n ≤ x)

bzero-out : (mem : ℕ → ℕ) (p n x : ℕ) → Outside p n x → bzero mem p n x ≡ mem x
unfolding bzero
bzero-out mem p zero x out = refl
bzero-out mem p (suc n) x out =
    bzero-out (put mem p 0) (p + 1) n x (omega arith) ∙ put_ne mem p 0 x (omega arith)

bzero-in : (mem : ℕ → ℕ) (p n i : ℕ) → i < n → bzero mem p n (p + i) ≡ 0
unfolding bzero
bzero-in mem p zero i lt = absurd (omega arith)
bzero-in mem p (suc n) zero lt =
    let at : p + 0 ≡ p = omega arith in
    ap (bzero (put mem p 0) (p + 1) n) at
    ∙ bzero-out (put mem p 0) (p + 1) n p (omega arith)
    ∙ put_self mem p 0
bzero-in mem p (suc n) (suc i) lt =
    let at : p + suc i ≡ p + 1 + i = omega arith in
    ap (bzero (put mem p 0) (p + 1) n) at ∙ bzero-in (put mem p 0) (p + 1) n i (omega arith)

-- A byte outside a string may change.
IsStr-put :
    (mem : ℕ → ℕ) (a v x : ℕ) (l : List ℕ)
    → Outside a (length l + 1) x
    → IsStr mem a l
    → IsStr (put mem x v) a l
unfolding IsStr
IsStr-put mem a v x [] out h = put_ne mem x v a (omega arith) ∙ h
IsStr-put mem a v x (c ∷ l) out h =
    (put_ne mem x v a (omega arith) ∙ h.0, h.1, IsStr-put mem (a + 1) v x l (omega arith) h.2)

strncpy-out : (mem : ℕ → ℕ) (s1 s2 n x : ℕ) → Outside s1 n x → strncpy mem s1 s2 n x ≡ mem x
unfolding strncpy
strncpy-out mem s1 s2 zero x out = refl
strncpy-out mem s1 s2 (suc n) x out =
    let mem1 = put mem s1 (mem s2) in
    let same = put_ne mem s1 (mem s2) x (omega arith) in
    elim (Bool-cases (mem s2 == 0)) [
      | inl e ↦ rw e (bzero-out mem1 (s1 + 1) n x (omega arith) ∙ same)
      | inr e ↦ rw e (strncpy-out mem1 (s1 + 1) (s2 + 1) n x (omega arith) ∙ same)
    ]

strncpy-in :
    (mem : ℕ → ℕ) (s1 s2 n i : ℕ) (l : List ℕ)
    → IsStr mem s2 l
    → (s1 + n ≤ s2) ⊎ (s2 + length l < s1)
    → i < n
    → strncpy mem s1 s2 n (s1 + i) ≡ char_at i l
unfolding strncpy IsStr char_at
strncpy-in mem s1 s2 zero i l h apart lt = absurd (omega arith)
strncpy-in mem s1 s2 (suc n) i [] h apart lt =
    let end : (mem s2 == 0) ≡ true = ground (arith, h) in rw end (padded i lt)
  where
    padded : (i : ℕ) → i < suc n → bzero (put mem s1 (mem s2)) (s1 + 1) n (s1 + i) ≡ 0
    padded zero lt =
        let at : s1 + 0 ≡ s1 = omega arith in
        ap (bzero (put mem s1 (mem s2)) (s1 + 1) n) at
        ∙ bzero-out (put mem s1 (mem s2)) (s1 + 1) n s1 (omega arith)
        ∙ put_self mem s1 (mem s2)
        ∙ h
    padded (suc i) lt =
        let at : s1 + suc i ≡ s1 + 1 + i = omega arith in
        ap (bzero (put mem s1 (mem s2)) (s1 + 1) n) at
        ∙ bzero-in (put mem s1 (mem s2)) (s1 + 1) n i (omega arith)
strncpy-in mem s1 s2 (suc n) i (c ∷ l) h apart lt =
    let more : (mem s2 == 0) ≡ false = ground (arith, h.0, h.1) in
    rw more (
      copied
        (λ j jl.
          strncpy-in (put mem s1 (mem s2)) (s1 + 1) (s2 + 1) n j l
            (IsStr-put mem (s2 + 1) (mem s2) s1 l (omega arith) h.2) (omega arith) jl)
        i lt)
  where
    copied :
        ((j : ℕ)
          → j < n
          → strncpy (put mem s1 (mem s2)) (s1 + 1) (s2 + 1) n (s1 + 1 + j) ≡ char_at j l)
        → (i : ℕ) → i < suc n
        → strncpy (put mem s1 (mem s2)) (s1 + 1) (s2 + 1) n (s1 + i) ≡ char_at i (c ∷ l)
    copied rest zero lt =
        let at : s1 + 0 ≡ s1 = omega arith in
        ap (strncpy (put mem s1 (mem s2)) (s1 + 1) (s2 + 1) n) at
        ∙ strncpy-out (put mem s1 (mem s2)) (s1 + 1) (s2 + 1) n s1 (omega arith)
        ∙ put_self mem s1 (mem s2)
        ∙ h.0
    copied rest (suc i) lt =
        let at : s1 + suc i ≡ s1 + 1 + i = omega arith in
        ap (strncpy (put mem s1 (mem s2)) (s1 + 1) (s2 + 1) n) at ∙ rest i (omega arith)

-- `strncpy` writes `n` bytes, whatever the length: the characters of the string, and NUL for the rest,
-- so with no NUL if the string has `n` or more; no other byte changes. The two do not overlap.
pub strncpy_lem :
    (mem : ℕ → ℕ) (s1 s2 n : ℕ) (l : List ℕ)
    → IsStr mem s2 l
    → (s1 + n ≤ s2) ⊎ (s2 + length l < s1)
    → ((i : ℕ) → i < n → strncpy mem s1 s2 n (s1 + i) ≡ char_at i l)
      × ((x : ℕ) → (x < s1) ⊎ (s1 + n ≤ x) → strncpy mem s1 s2 n x ≡ mem x)
strncpy_lem mem s1 s2 n l h apart =
    ((λ i lt. strncpy-in mem s1 s2 n i l h apart lt), λ x out. strncpy-out mem s1 s2 n x out)
