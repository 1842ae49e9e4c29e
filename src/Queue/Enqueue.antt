-- ===== src/Queue/Enqueue.antt =====
-- Linking a process in: the gap between two parts of a queue, and `enqueue`.
use cs503_lab.Base.{
  ℕ, ◌<◌, ◌≡◌, refl, sym, ap, ◌∙◌, inl, inr, true, false, ◌||◌, List, [], ◌∷◌, ◌++◌, append_assoc,
  append-nil, arith, ◌==◌, has, has-append, Distinct, Front-view, put, Bool-cases, Distinct-insert,
}
use mathlib.Core.Path.{subst}
use cs503_lab.Config.{nproc, ProcTab, is_bad_pid}
use cs503_lab.Queue.{QTab, tail_of, enqueue}
use cs503_lab.Queue.Chain.{Chain, Chain-back}
use cs503_lab.Queue.Links.{link_in, link_in-Chain}
use cs503_lab.Queue.Contents.{
  IsQid, nodes, Holds, OnlyIn, Idle, Holds-OnlyIn, has-nodes, Distinct-nodes, Holds-change,
}
use cs503_lab.Queue.Remove.{nodes-split, mem_nodes}
use cs503_lab.Queue.Ends.{is_bad_qid-IsQid}

-- The first of a list, or what stands behind it.
abbrev pub first_or : ℕ → List ℕ → ℕ
first_or z [] = z
first_or z (x ∷ xs) = x

abbrev pub rest_or : ℕ → List ℕ → List ℕ
rest_or z [] = []
rest_or z (x ∷ xs) = xs ++ z ∷ []

first_or-rest_or : (z : ℕ) (xs : List ℕ) → xs ++ z ∷ [] ≡ first_or z xs ∷ rest_or z xs
first_or-rest_or z [] = refl
first_or-rest_or z (x ∷ xs) = refl

-- The nodes of a queue, parted between `xs` and `ys`, with room for `p`.
pub record Gap (q p : ℕ) (xs ys : List ℕ) : Type 0 where
  pub before : List ℕ
  pub left : ℕ
  pub whole : nodes q (xs ++ ys) ≡ before ++ left ∷ first_or (tail_of q) ys ∷ rest_or (tail_of q) ys
  pub filled :
      nodes q (xs ++ p ∷ ys) ≡ before ++ left ∷ p ∷ first_or (tail_of q) ys ∷ rest_or (tail_of q) ys
  pub left_mem : has left (nodes q (xs ++ ys)) ≡ true
  pub right_mem : has (first_or (tail_of q) ys) (nodes q (xs ++ ys)) ≡ true

pub gap : (q p : ℕ) (xs ys : List ℕ) → Gap q p xs ys
gap q p xs ys =
    let f = Front-view q xs in
    let e : nodes q (xs ++ ys)
        ≡ f.init ++ f.last ∷ first_or (tail_of q) ys ∷ rest_or (tail_of q) ys =
      nodes-split q xs ys (xs ++ ys) refl
      ∙ ap (λ l. l ++ (ys ++ tail_of q ∷ [])) f.whole
      ∙ append_assoc f.init (f.last ∷ []) (ys ++ tail_of q ∷ [])
      ∙ ap (λ l. f.init ++ f.last ∷ l) (first_or-rest_or (tail_of q) ys) in
    record {
      before = f.init;
      left = f.last;
      whole = e;
      filled =
          nodes-split q xs (p ∷ ys) (xs ++ p ∷ ys) refl
          ∙ ap (λ l. l ++ p ∷ (ys ++ tail_of q ∷ [])) f.whole
          ∙ append_assoc f.init (f.last ∷ []) (p ∷ (ys ++ tail_of q ∷ []))
          ∙ ap (λ l. f.init ++ f.last ∷ p ∷ l) (first_or-rest_or (tail_of q) ys);
      left_mem =
          subst (λ l. has f.last l ≡ true) (sym e)
            (ground (
              arith,
              has-append f.last f.init (f.last ∷ first_or (tail_of q) ys ∷ rest_or (tail_of q) ys),
            ));
      right_mem =
          subst (λ l. has (first_or (tail_of q) ys) l ≡ true) (sym e)
            (ground (
              arith,
              has-append (first_or (tail_of q) ys) f.init
                  (f.last ∷ first_or (tail_of q) ys ∷ rest_or (tail_of q) ys),
            ));
    }

module _ {t : QTab} {c : ℕ → List ℕ} (h : Holds t c) (q : ℕ) (iq : IsQid q) (p : ℕ)
    (idle : Idle c p) where
  -- `p`, or a process that stands in queue `q`.
  member : (a : ℕ) → (a == p || has a (c q)) ≡ true → (a < nproc) × OnlyIn c q a
  member a m = elim (Bool-cases (has a (c q))) [
    | inl i ↦ (h.pids q a iq i, Holds-OnlyIn q a h iq i)
    | inr o ↦
        let s : p ≡ a = ground arith in
        subst (λ b. (b < nproc) × OnlyIn c q b) s (idle.0, λ r ir ne. idle.1 r ir)
  ]

  -- A process in no queue, linked in before the entry at which `ys` begins.
  pub link_in-Holds :
      (xs ys : List ℕ)
      → c q ≡ xs ++ ys
      → let v = first_or (tail_of q) ys in Holds (link_in (t.prev v) p v t) (put c q (xs ++ p ∷ ys))
  link_in-Holds xs ys e =
      let v = first_or (tail_of q) ys in
      let g = gap q p xs ys in
      let whole : nodes q (c q) ≡ g.before ++ g.left ∷ v ∷ rest_or (tail_of q) ys =
        ap (nodes q) e ∙ g.whole in
      let chain = subst (Chain t) whole (h.chain q iq) in
      let back : t.prev v ≡ g.left = (Chain-back t g.before g.left _ chain).0.1 in
      let r =
        link_in-Chain t g.before g.left p v (rest_or (tail_of q) ys) chain
          (subst Distinct whole (Distinct-nodes q h iq))
          (subst (λ l. has p l ≡ false) whole
            (ground (arith, has-nodes p q (c q), idle.0, idle.1 q iq))) in
      let inside = λ (i : ℕ) (m : has i (nodes q (xs ++ ys)) ≡ true).
        mem_nodes h q iq i (subst (λ l. has i (nodes q l) ≡ true) (sym e) m) in
      rw back (
        Holds-change q h iq (link_in g.left p v t) (xs ++ p ∷ ys) (p ∷ g.left ∷ v ∷ [])
          (subst (Chain (link_in g.left p v t)) (sym g.filled) r.0)
          (Distinct-insert p xs ys (subst Distinct e (h.distinct q iq))
            (subst (λ l. has p l ≡ false) e (idle.1 q iq)))
          (λ a m.
            member a (ground (arith, has-append a xs (p ∷ ys), has-append a xs ys, ap (has a) e)))
          r.1
          (λ i m. elim (Bool-cases (i == p)) [
            | inl s ↦ inl (member i (ground arith))
            | inr s ↦ inside i (ground (arith, g.left_mem, g.right_mem))
          ]))

  -- `enqueue` puts a process that is in no queue behind all others of queue `q`, and leaves all
  -- other queues alone.
  pub enqueue-append :
      (procs : ProcTab)
      → is_bad_pid procs p ≡ false
      → ((enqueue procs p q t).0 ≡ p) × Holds (enqueue procs p q t).1 (put c q (c q ++ p ∷ []))
  unfolding enqueue
  enqueue-append procs good =
      rw (is_bad_qid-IsQid q iq, good) (refl, link_in-Holds (c q) [] (sym (append-nil (c q))))

pub enqueue-key : (procs : ProcTab) (p q : ℕ) (t : QTab) → (enqueue procs p q t).1.key ≡ t.key
unfolding enqueue
enqueue-key procs p q t = ground arith
