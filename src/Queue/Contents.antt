-- ===== src/Queue/Contents.antt =====
-- What the queue table stands for: a list of processes for each queue, no process in two.
use cs503_lab.Base.{
  ℕ, ◌-◌, ◌%◌, ◌≤◌, ◌<◌, ◌≡◌, refl, ◌≢◌, ◌⊎◌, inl, inr, true, false, ◌||◌, List, [], ◌∷◌, ◌++◌,
  arith, ◌==◌, Bool-cases, has, has-append, Distinct, Distinct-append, length,
  length-le_of_Distinct, put, remove, has-remove,
}
use cs503_lab.Config.{nproc, nqent}
use cs503_lab.Queue.{QTab, tail_of}
use cs503_lab.Queue.Chain.{Chain}
use cs503_lab.Queue.Links.{SameLinks, SameLinks-Chain}

-- The identifiers that `newqueue` gives out: pairs of entries behind those of the processes.
abbrev pub IsQid : ℕ → Type 0
IsQid q = (nproc ≤ q) × (q % 2 ≡ 0) × (q < nqent - 1)

abbrev pub nodes : ℕ → List ℕ → List ℕ
nodes q xs = q ∷ (xs ++ tail_of q ∷ [])

-- `c q` lists the processes of queue `q`, first to last.
pub record Holds (t : QTab) (c : ℕ → List ℕ) : Type 0 where
  pub chain : (q : ℕ) → IsQid q → Chain t (nodes q (c q))
  pub pids : (q p : ℕ) → IsQid q → has p (c q) ≡ true → p < nproc
  pub distinct : (q : ℕ) → IsQid q → Distinct (c q)
  pub apart : (q r p : ℕ) → IsQid q → IsQid r → has p (c q) ≡ true → has p (c r) ≡ true → q ≡ r

-- `p` stands in no queue but `q`.
abbrev pub OnlyIn : (ℕ → List ℕ) → ℕ → ℕ → Type 0
OnlyIn c q p = (r : ℕ) → IsQid r → r ≢ q → has p (c r) ≡ false

-- `p` is a process identifier and stands in no queue.
abbrev pub Idle : (ℕ → List ℕ) → ℕ → Type 0
Idle c p = (p < nproc) × ((r : ℕ) → IsQid r → has p (c r) ≡ false)

pub Holds-OnlyIn :
    {t : QTab} {c : ℕ → List ℕ} (q p : ℕ) → Holds t c → IsQid q → has p (c q) ≡ true → OnlyIn c q p
Holds-OnlyIn {c} q p h iq m r ir ne = elim (Bool-cases (has p (c r))) [
  | inl e ↦ absurd (ne (h.apart r q p ir iq e m))
  | inr e ↦ e
]

pub has-nodes :
    (i q : ℕ) (xs : List ℕ) → has i (nodes q xs) ≡ (i == q || (has i xs || i == tail_of q))
has-nodes i q xs = ground (arith, has-append i xs (tail_of q ∷ []))

module _ {t : QTab} {c : ℕ → List ℕ} (q : ℕ) (h : Holds t c) (iq : IsQid q) where
  pub Distinct-nodes : Distinct (nodes q (c q))
  Distinct-nodes = (
    ground (arith, has-append q (c q) (tail_of q ∷ []), h.pids q q iq),
    Distinct-append (c q) (tail_of q ∷ []) (h.distinct q iq) (ground arith)
        (λ a m. ground (arith, h.pids q a iq m)),
  )

  outside :
      (i r : ℕ)
      → IsQid r
      → r ≢ q
      → has i (nodes r (c r)) ≡ true
      → ((i < nproc) × OnlyIn c q i) ⊎ ((i ≡ q) ⊎ (i ≡ tail_of q))
      → ⊥
  outside i r ir ne m (inl (lt, only)) = ground (arith, has-nodes i r (c r), only r ir ne)
  outside i r ir ne m (inr e) = ground (arith, has-nodes i r (c r), h.pids r i ir)

  -- A change of the links of queue `q` alone, and of processes in no other queue.
  pub Holds-change :
      (t' : QTab) (xs ns : List ℕ)
      → Chain t' (nodes q xs)
      → Distinct xs
      → ((p : ℕ) → has p xs ≡ true → (p < nproc) × OnlyIn c q p)
      → SameLinks t t' ns
      → ((i : ℕ) → has i ns ≡ true → ((i < nproc) × OnlyIn c q i) ⊎ ((i ≡ q) ⊎ (i ≡ tail_of q)))
      → Holds t' (put c q xs)
  Holds-change t' xs ns chain distinct own same inside = record {
    chain = λ r ir. elim (Bool-cases (r == q)) [
      | inl e ↦ ground (arith)
      | inr e ↦ rw e (
          SameLinks-Chain t t' ns (nodes r (c r)) same
            (λ i m. elim (Bool-cases (has i ns)) [
              | inl n ↦ absurd (outside i r ir (ground arith) m (inside i n))
              | inr n ↦ n
            ])
            (h.chain r ir))
    ];
    pids = λ r p ir m. ground (arith, own p, h.pids r p ir);
    distinct = λ r ir. elim (Bool-cases (r == q)) [
      | inl e ↦ rw e distinct
      | inr e ↦ rw e (h.distinct r ir)
    ];
    apart = λ r s p ir is m n. elim (Bool-cases (r == q)) [
      | inl e ↦ elim (Bool-cases (s == q)) [
        | inl f ↦ ground arith
        | inr f ↦ absurd (ground (arith, (own p (ground arith)).1 s is (ground arith)))
      ]
      | inr e ↦ elim (Bool-cases (s == q)) [
        | inl f ↦ absurd (ground (arith, (own p (ground arith)).1 r ir (ground arith)))
        | inr f ↦ h.apart r s p ir is (ground arith) (ground arith)
      ]
    ];
  }

-- A change of the links of a process that stands in no queue.
pub Holds-idle :
    {t : QTab} {c : ℕ → List ℕ} (t' : QTab) (p : ℕ)
    → Holds t c
    → Idle c p
    → SameLinks t t' (p ∷ [])
    → Holds t' c
Holds-idle {t} {c} t' p h idle same = record {
  chain = λ r ir.
      SameLinks-Chain t t' (p ∷ []) (nodes r (c r)) same
        (λ i m. ground (arith, has-nodes i r (c r), idle.1 r ir)) (h.chain r ir);
  pids = h.pids;
  distinct = h.distinct;
  apart = h.apart;
}

-- Out of its only queue, a process is idle.
pub Idle-remove :
    {t : QTab} {c : ℕ → List ℕ} (q p : ℕ)
    → Holds t c
    → IsQid q
    → has p (c q) ≡ true
    → Idle (put c q (remove p (c q))) p
Idle-remove {c} q p h iq m = (
  h.pids q p iq m,
  λ r ir. elim (Bool-cases (r == q)) [
    | inl e ↦ rw e (ground (arith, has-remove p p (c q) (h.distinct q iq)))
    | inr e ↦ rw e (Holds-OnlyIn q p h iq m r ir (ground arith))
  ],
)

-- The keys are no part of what the links stand for.
pub Holds-SameLinks :
    {t : QTab} {c : ℕ → List ℕ} (t' : QTab) → Holds t c → SameLinks t t' [] → Holds t' c
Holds-SameLinks {t} {c} t' h same = record {
  chain = λ r ir. SameLinks-Chain t t' [] (nodes r (c r)) same (λ i m. refl) (h.chain r ir);
  pids = h.pids;
  distinct = h.distinct;
  apart = h.apart;
}

pub length-contents :
    {t : QTab} {c : ℕ → List ℕ} (q : ℕ) → Holds t c → IsQid q → length (c q) ≤ nproc
length-contents {c} q h iq =
    length-le_of_Distinct nproc (c q) (h.distinct q iq) (λ a m. h.pids q a iq m)
