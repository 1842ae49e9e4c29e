-- ===== src/Paging/Fault/Entries.antt =====
-- The loops that fill page directories and page tables.
use cs503_lab.Base.{
  ℕ, zero, suc, ◌+◌, ◌<◌, ◌≡◌, refl, ap, ◌∙◌, inl, inr, ◌&&◌, Bool, true, false, arith, ◌==◌,
  Bool-cases, ltb, leb,
}
use cs503_lab.Paging.{Paging, entry_to, store_entry}
use cs503_lab.Paging.Fault.{clear_pres, empty_entries, set_entries}

-- `w` is one of the `n` words from `word` on.
abbrev pub among : ℕ → ℕ → ℕ → Bool
among n word w = leb word w && ltb w (word + n)

-- Only the entries change.
pub set_entries-kept :
    (n word page : ℕ) (s : Paging)
    → set_entries n word page s ≡ record s { entries = (set_entries n word page s).entries }
unfolding set_entries
set_entries-kept zero word page s = refl
set_entries-kept (suc n) word page s =
    set_entries-kept n (word + 1) (page + 1) (store_entry word page s)

pub clear_pres-kept :
    (n word : ℕ) (s : Paging)
    → clear_pres n word s ≡ record s { entries = (clear_pres n word s).entries }
unfolding clear_pres
clear_pres-kept zero word s = refl
clear_pres-kept (suc n) word s = clear_pres-kept n (word + 1) _

pub empty_entries-kept :
    (n word : ℕ) (s : Paging)
    → empty_entries n word s ≡ record s { entries = (empty_entries n word s).entries }
unfolding empty_entries
empty_entries-kept zero word s = refl
empty_entries-kept (suc n) word s = empty_entries-kept n (word + 1) _

-- What is stored where: the pages follow one another.
pub set_entries-out :
    (n word page w : ℕ) (s : Paging)
    → among n word w ≡ false
    → (set_entries n word page s).entries w ≡ s.entries w
unfolding set_entries
set_entries-out zero word page w s e = refl
set_entries-out (suc n) word page w s e =
    let other : (w == word) ≡ false = ground arith in
    set_entries-out n (word + 1) (page + 1) w (store_entry word page s) (ground arith)
    ∙ rw other refl

pub set_entries-in :
    (n word page k : ℕ) (s : Paging)
    → k < n
    → (set_entries n word page s).entries (word + k) ≡ entry_to (page + k)
unfolding set_entries
set_entries-in zero word page k s lt = absurd (omega arith)
set_entries-in (suc n) word page zero s lt =
    let here : word + 0 ≡ word = omega arith in
    let first : page + 0 ≡ page = omega arith in
    let self : (word == word) ≡ true = ground arith in
    rw (here, first)
      (set_entries-out n (word + 1) (page + 1) word (store_entry word page s) (ground arith)
        ∙ rw self refl)
set_entries-in (suc n) word page (suc k) s lt =
    let next : word + suc k ≡ word + 1 + k = omega arith in
    let next' : page + suc k ≡ page + 1 + k = omega arith in
    rw (next, next')
      (set_entries-in n (word + 1) (page + 1) k (store_entry word page s) (omega arith))

pub empty_entries-out :
    (n word w : ℕ) (s : Paging)
    → among n word w ≡ false
    → (empty_entries n word s).entries w ≡ s.entries w
unfolding empty_entries
empty_entries-out zero word w s e = refl
empty_entries-out (suc n) word w s e =
    let other : (w == word) ≡ false = ground arith in
    empty_entries-out n (word + 1) w _ (ground arith) ∙ rw other refl

pub empty_entries-in :
    (n word w : ℕ) (s : Paging)
    → among n word w ≡ true
    → ((empty_entries n word s).entries w).pres ≡ false
unfolding empty_entries
empty_entries-in zero word w s e = absurd (ground arith)
empty_entries-in (suc n) word w s e = elim (Bool-cases (w == word)) [
  | inl a ↦ ap (λ x. x.pres) (empty_entries-out n (word + 1) w _ (ground arith)) ∙ rw a refl
  | inr a ↦ empty_entries-in n (word + 1) w _ (ground arith)
]

pub clear_pres-out :
    (n word w : ℕ) (s : Paging)
    → among n word w ≡ false
    → (clear_pres n word s).entries w ≡ s.entries w
unfolding clear_pres
clear_pres-out zero word w s e = refl
clear_pres-out (suc n) word w s e =
    let other : (w == word) ≡ false = ground arith in
    clear_pres-out n (word + 1) w _ (ground arith) ∙ rw other refl

pub clear_pres-in :
    (n word w : ℕ) (s : Paging)
    → among n word w ≡ true
    → ((clear_pres n word s).entries w).pres ≡ false
unfolding clear_pres
clear_pres-in zero word w s e = absurd (ground arith)
clear_pres-in (suc n) word w s e = elim (Bool-cases (w == word)) [
  | inl a ↦ ap (λ x. x.pres) (clear_pres-out n (word + 1) w _ (ground arith)) ∙ rw a refl
  | inr a ↦ clear_pres-in n (word + 1) w _ (ground arith)
]
