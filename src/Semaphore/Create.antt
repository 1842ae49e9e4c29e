-- ===== src/Semaphore/Create.antt =====
-- semcreate.c: the search for an unused semaphore, and what a new one is.
use cs503_lab.Base.{
  ℕ, zero, suc, ◌+◌, ◌-◌, ◌^◌, ◌%◌, ◌<◌, ◌≡◌, refl, sym, ap, ◌⊎◌, inl, inr, true, false, List, [],
  arith, ◌==◌, if◌then◌else◌, length, put, put_self, Bool-cases, slt, leb,
}
use mathlib.Core.Path.{subst}
use cs503_lab.Config.{nsem, syserr}
use cs503_lab.Kernel.{Kernel}
use cs503_lab.Kernel.Invariant.{Counted}
use cs503_lab.Kernel.Running.{Running}
use cs503_lab.Semaphore.{set_count, newsem, semcreate}

-- `newsem` took semaphore `s`, which was unused.
pub record Taken (k : Kernel) (r : ℕ × Kernel) : Type 0 where
  pub within : r.0 < nsem
  pub was_unused : k.sem_used r.0 ≡ false
  pub next_in : r.1.next_sem < nsem
  pub rest : r.1 ≡ record k { next_sem = r.1.next_sem; sem_used = put k.sem_used r.0 true }

record AllUsed (n : ℕ) (k : Kernel) (r : ℕ × Kernel) : Type 0 where
  refused : r.0 ≡ syserr
  in_use : (j : ℕ) → j < n → k.sem_used ((k.next_sem + j) % nsem) ≡ true

abbrev skip_sem : Kernel → Kernel
skip_sem k = record k { next_sem = if leb nsem (k.next_sem + 1) then 0 else k.next_sem + 1 }

skip_sem-next : (k : Kernel) → k.next_sem < nsem → (skip_sem k).next_sem ≡ (k.next_sem + 1) % nsem
skip_sem-next k lt = ground arith

AllUsed-step :
    (n : ℕ) (k : Kernel) (r : ℕ × Kernel)
    → k.next_sem < nsem
    → k.sem_used k.next_sem ≡ true
    → AllUsed n (skip_sem k) r
    → AllUsed (suc n) k r
AllUsed-step n k r lt e f = record { refused = f.refused; in_use = all }
  where
    all : (j : ℕ) → j < suc n → k.sem_used ((k.next_sem + j) % nsem) ≡ true
    all zero l =
        let same : k.next_sem ≡ (k.next_sem + 0) % nsem = omega arith in
        subst (λ i. k.sem_used i ≡ true) same e
    all (suc j) l =
        let same : ((skip_sem k).next_sem + j) % nsem ≡ (k.next_sem + suc j) % nsem =
          omega (arith, skip_sem-next k lt) in
        subst (λ i. k.sem_used i ≡ true) same (f.in_use j (omega arith))

newsem-try :
    (n : ℕ) (k : Kernel) → k.next_sem < nsem → Taken k (newsem n k) ⊎ AllUsed n k (newsem n k)
unfolding newsem
newsem-try zero k lt = inr (record { refused = refl; in_use = λ j l. absurd (omega arith) })
newsem-try (suc n) k lt =
    let next : (skip_sem k).next_sem < nsem = omega (arith, skip_sem-next k lt) in
    elim (Bool-cases (k.sem_used k.next_sem)) [
      | inl e ↦ rw e (elim (newsem-try n (skip_sem k) next) [
        | inl f ↦ inl (record {
          within = f.within;
          was_unused = f.was_unused;
          next_in = f.next_in;
          rest = f.rest;
        })
        | inr f ↦ inr (AllUsed-step n k _ lt e f)
      ])
      | inr e ↦ rw e (inl (record { within = lt; was_unused = e; next_in = next; rest = refl }))
    ]

-- `newsem` finds an unused semaphore, or fails when all are used.
newsem_lem :
    (k : Kernel)
    → k.next_sem < nsem
    → Taken k (newsem nsem k)
      ⊎ ((newsem nsem k).0 ≡ syserr) × ((s : ℕ) → s < nsem → k.sem_used s ≡ true)
newsem_lem k lt = elim (newsem-try nsem k lt) [
  | inl f ↦ inl f
  | inr f ↦ inr (
    f.refused,
    λ s l.
        let same : (k.next_sem + (s + nsem - k.next_sem) % nsem) % nsem ≡ s = omega arith in
        subst (λ i. k.sem_used i ≡ true) same (f.in_use _ (omega arith)),
  )
]

-- Semaphore `s` is new in `k'`, with the count asked for and nobody waiting.
pub record NewSem (count : ℕ) (k k' : Kernel) (c : ℕ → List ℕ) (s : ℕ) : Type 0 where
  pub within : s < nsem
  pub was_unused : k.sem_used s ≡ false
  pub used : k'.sem_used s ≡ true
  pub counts : k'.sem_count s ≡ count
  pub nobody : c (k'.sem_queue s) ≡ []
  pub running : Running k' c
  pub next_in : k'.next_sem < nsem

module _ {k : Kernel} {c : ℕ → List ℕ} (r : Running k c) (s count next : ℕ) (lt : s < nsem)
    (was : k.sem_used s ≡ false) (small : count < 2 ^ 32) (nonneg : slt count 0 ≡ false)
    (nl : next < nsem) where
  abbrev made : Kernel
  made = set_count s count (record k { next_sem = next; sem_used = put k.sem_used s true })

  made-Counted : Counted made c
  made-Counted = record {
    counts = λ a al u. elim (Bool-cases (a == s)) [
      | inl e ↦
          let same : a ≡ s = ground arith in
          rw (e, nonneg)
            (
              small,
              subst (λ i. length (c (k.sem_queue i)) ≡ 0) (sym same)
                  (ap length (r.counted.unused s lt was)),
            )
      | inr e ↦
          rw e (r.counted.counts a al (let u' : put k.sem_used s true a ≡ true = u in ground arith))
    ];
    unused = λ a al u. r.counted.unused a al (ground arith);
  }

  made-NewSem : NewSem count k made c s
  made-NewSem = record {
    within = lt;
    was_unused = was;
    used = put_self k.sem_used s true;
    counts = put_self k.sem_count s count;
    nobody = r.counted.unused s lt was;
    running = record {
      kernel = record {
        holds = r.kernel.holds;
        bounded = r.kernel.bounded;
        layout = r.kernel.layout;
        homes = r.kernel.homes;
        sorted = r.kernel.sorted;
        one_curr = r.kernel.one_curr;
        curr_in = r.kernel.curr_in;
        null_in = r.kernel.null_in;
        waits_in = r.kernel.waits_in;
        prios = r.kernel.prios;
      };
      keyed = r.keyed;
      counted = made-Counted;
      scheduled = record { runs = r.scheduled.runs; first = r.scheduled.first };
      immediate = r.immediate;
    };
    next_in = nl;
  }

is_syserr : (s : ℕ) → s ≡ syserr → (s == syserr) ≡ true
is_syserr s e = ground arith

not_syserr : (s : ℕ) → s < nsem → (s == syserr) ≡ false
not_syserr s lt = ground arith

-- `semcreate` with a count that is not negative: an unused semaphore becomes used, with that count
-- and nobody waiting, and the kernel stays well formed; or all are used, and the call fails.
pub semcreate_lem :
    {k : Kernel} {c : ℕ → List ℕ} (r : Running k c) (count : ℕ)
    → k.next_sem < nsem
    → count < 2 ^ 32
    → slt count 0 ≡ false
    → NewSem count k (semcreate count k).1 c (semcreate count k).0
      ⊎ ((semcreate count k).0 ≡ syserr) × ((s : ℕ) → s < nsem → k.sem_used s ≡ true)
unfolding semcreate
semcreate_lem {k} r count lt small nonneg = elim (newsem_lem k lt) [
  | inl f ↦
      let m =
        made-NewSem r (newsem nsem k).0 count (newsem nsem k).1.next_sem f.within f.was_unused small
          nonneg f.next_in in
      rw (nonneg, not_syserr (newsem nsem k).0 f.within, f.rest) (inl m)
  | inr f ↦ rw (nonneg, is_syserr (newsem nsem k).0 f.0) (inr (refl, f.1))
]
