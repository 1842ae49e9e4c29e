-- ===== src/Semaphore/Counts.antt =====
-- The arithmetic of semaphore counts, and the counts after one list has changed.
use cs503_lab.Base.{
  ℕ, suc, ◌+◌, ◌-◌, ◌^◌, ◌≤◌, ◌<◌, ◌≡◌, sym, ap, ◌∙◌, ◌≢◌, inl, inr, true, false, List, [], arith,
  ◌==◌, length, put, Bool-cases, slt, bias, add32, sub32,
}
use mathlib.Core.Path.{subst}
use cs503_lab.Config.{nproc, nsem}
use cs503_lab.Kernel.{Kernel}
use cs503_lab.Kernel.Invariant.{Layout, Counted, deficit}
use cs503_lab.Semaphore.{is_bad_sem}

-- A count that says at most `nproc` are waiting is above the least `int32`.
pub deficit-dec_blocks :
    (n : ℕ)
    → n < 2 ^ 32
    → deficit n ≤ nproc
    → slt (sub32 n 1) 0 ≡ true
    → deficit (sub32 n 1) ≡ deficit n + 1
unfolding bias sub32
deficit-dec_blocks n lt le b = ground arith

pub deficit-dec_passes :
    (n : ℕ)
    → n < 2 ^ 32
    → slt (sub32 n 1) 0 ≡ false
    → deficit n ≤ nproc
    → (deficit (sub32 n 1) ≡ 0) × (deficit n ≡ 0)
unfolding bias sub32
deficit-dec_passes n lt b le = ground arith

pub deficit-inc : (n : ℕ) → n < 2 ^ 32 → slt n 0 ≡ true → deficit n ≡ suc (deficit (add32 n 1))
unfolding bias add32
deficit-inc n lt neg = ground arith

pub deficit-inc_idle :
    (n : ℕ)
    → n < 2 ^ 32
    → slt n 0 ≡ false
    → n ≢ 2 ^ 31 - 1
    → (deficit (add32 n 1) ≡ 0) × (deficit n ≡ 0)
unfolding bias add32
deficit-inc_idle n lt neg ne = ground arith

pub sub32-lt : (a b : ℕ) → sub32 a b < 2 ^ 32
unfolding sub32
sub32-lt a b = omega arith

pub add32-lt : (a b : ℕ) → add32 a b < 2 ^ 32
unfolding add32
add32-lt a b = omega arith

pub is_bad_sem-lt : (s : ℕ) → s < nsem → is_bad_sem s ≡ false
unfolding bias
is_bad_sem-lt s lt = ground arith

-- Semaphore `s` has count `m` and list `l`; all others are as before.
pub Counted-put :
    {k k' : Kernel} {c : ℕ → List ℕ} (s m : ℕ) (l : List ℕ)
    → Layout k.readylist k.sleepq k.sem_queue
    → Counted k c
    → s < nsem
    → k.sem_used s ≡ true
    → m < 2 ^ 32
    → length l ≡ deficit m
    → k'.sem_count ≡ put k.sem_count s m
    → (k'.sem_used ≡ k.sem_used) × (k'.sem_queue ≡ k.sem_queue)
    → Counted k' (put c (k.sem_queue s) l)
Counted-put {k} {k'} {c} s m l layout n lt used small len count same = record {
  counts = λ r rl u.
      let u' : k.sem_used r ≡ true = sym (ap (λ g. g r) same.0) ∙ u in
      subst
        (λ g. (g r < 2 ^ 32) × (length (put c (k.sem_queue s) l (k'.sem_queue r)) ≡ deficit (g r)))
        (sym count)
        (subst
          (λ g.
            (put k.sem_count s m r < 2 ^ 32)
            × (length (put c (k.sem_queue s) l (g r)) ≡ deficit (put k.sem_count s m r)))
          (sym same.1)
          (elim (Bool-cases (r == s)) [
            | inl e ↦
                let s' : r ≡ s = ground arith in
                let q : (k.sem_queue r == k.sem_queue s) ≡ true = ground arith in
                rw (e, q) (small, len)
            | inr e ↦
                let q : (k.sem_queue r == k.sem_queue s) ≡ false =
                  ground (arith, layout.sems r s rl lt) in
                rw (e, q) (n.counts r rl u')
          ]));
  unused = λ r rl u.
      let u' : k.sem_used r ≡ false = sym (ap (λ g. g r) same.0) ∙ u in
      subst (λ g. put c (k.sem_queue s) l (g r) ≡ []) (sym same.1)
        (let q : (k.sem_queue r == k.sem_queue s) ≡ false = ground (arith, layout.sems r s rl lt) in
          rw q (n.unused r rl u'));
}
