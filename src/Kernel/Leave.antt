-- ===== src/Kernel/Leave.antt =====
-- A process leaves its queue, to go elsewhere.
use cs503_lab.Base.{
  ℕ, ◌≡◌, sym, ◌≢◌, inl, inr, Bool, true, false, List, [], ◌∷◌, arith, ◌==◌, has, put, Bool-cases,
  remove, has-remove,
}
use mathlib.Core.Path.{subst}
use cs503_lab.Config.{PrState}
use cs503_lab.Queue.{QTab}
use cs503_lab.Queue.Contents.{IsQid, Holds, Idle, Idle-remove}
use cs503_lab.Queue.Insert.{Desc}
use cs503_lab.Kernel.{Kernel, set_state}
use cs503_lab.Kernel.Invariant.{IsKernel, Loose}
use cs503_lab.Kernel.Resched.{Bounded-key}

Desc-remove_head : (keys : ℕ → ℕ) (x y : ℕ) (r : List ℕ) → Desc keys (x ∷ y ∷ r) → Desc keys (x ∷ r)
Desc-remove_head keys x y [] d = tt
Desc-remove_head keys x y (z ∷ r) d = (omega (arith, d.0, d.1.0), d.1.1)

Desc-remove_behind :
    (keys : ℕ → ℕ) (p x : ℕ) (r : List ℕ) → Desc keys (x ∷ r) → Desc keys (x ∷ remove p r)
Desc-remove_behind keys p x [] d = tt
Desc-remove_behind keys p x (y ∷ r) d = elim (Bool-cases (p == y)) [
  | inl e ↦ rw e (Desc-remove_head keys x y r d)
  | inr e ↦ rw e (d.0, Desc-remove_behind keys p y r d.1)
]

pub Desc-remove : (keys : ℕ → ℕ) (p : ℕ) (l : List ℕ) → Desc keys l → Desc keys (remove p l)
Desc-remove keys p [] d = tt
Desc-remove keys p (x ∷ []) d = ground arith
Desc-remove keys p (x ∷ y ∷ r) d = elim (Bool-cases (p == x)) [
  | inl e ↦ rw e d.1
  | inr e ↦ rw e (Desc-remove_behind keys p x (y ∷ r) d)
]

-- The links and the lists with `p` taken out of queue `q`.
pub record Left (p q : ℕ) (t t' : QTab) (c : ℕ → List ℕ) : Type 0 where
  pub holds : Holds t' (put c q (remove p (c q)))
  pub keys : t'.key ≡ t.key

pub Loose-Left :
    {k : Kernel} {c : ℕ → List ℕ} (p q : ℕ) (t : QTab)
    → IsKernel k c
    → IsQid q
    → has p (c q) ≡ true
    → Left p q k.queues t c
    → Loose p (record k { queues = t }) (put c q (remove p (c q)))
      × Idle (put c q (remove p (c q))) p
Loose-Left {k} {c} p q t v iq m l = (
  record {
    holds = l.holds;
    bounded = Bounded-key t v.bounded l.keys;
    layout = v.layout;
    homes = λ a r lt ne ir.
        ground (
          arith,
          v.homes a r lt ir,
          v.homes a q lt iq,
          has-remove a p (c q) (v.holds.distinct q iq),
        );
    sorted = subst (λ f. Desc f (put c q (remove p (c q)) k.readylist)) (sym l.keys) sorted;
    one_curr = λ a lt ne e. v.one_curr a lt e;
    curr_in = v.curr_in;
    null_in = inr v.null_in;
    waits_in = λ a lt ne e. v.waits_in a lt e;
    prios = v.prios;
  },
  Idle-remove q p v.holds iq m,
)
  where
    sorted : Desc k.queues.key (put c q (remove p (c q)) k.readylist)
    sorted = elim (Bool-cases (k.readylist == q)) [
      | inl e ↦
          let s : k.readylist ≡ q = ground arith in
          rw e (Desc-remove k.queues.key p (c q) (subst (λ r. Desc k.queues.key (c r)) s v.sorted))
      | inr e ↦ rw e v.sorted
    ]

-- States that put a process in no queue, and do not make it current.
abbrev pub is_parked : PrState → Bool
is_parked PrState.free = true
is_parked PrState.recv = true
is_parked PrState.susp = true
is_parked _ = false

-- A process that stands in no queue, and is not the null process, is parked.
pub Loose-park :
    {k : Kernel} {c : ℕ → List ℕ} (p : ℕ) (x : PrState)
    → Loose p k c
    → Idle c p
    → p ≢ 0
    → is_parked x ≡ true
    → IsKernel (set_state p x k) c
Loose-park {k} {c} p x v idle ne parked = record {
  holds = v.holds;
  bounded = v.bounded;
  layout = v.layout;
  homes = λ a q lt iq. ground (arith, v.homes a q lt, idle.1 q iq);
  sorted = v.sorted;
  one_curr = λ a lt e. ground (arith, v.one_curr a lt);
  curr_in = v.curr_in;
  null_in = ground (arith, v.null_in);
  waits_in = λ a lt e. ground (arith, v.waits_in a lt);
  prios = v.prios;
}
