-- ===== src/Queue/Ends.antt =====
-- `dequeue` and `getlast`: a queue's two ends.
use cs503_lab.Base.{
  ℕ, Bool-cases, inl, inr, ◌≡◌, refl, sym, ap, ◌∙◌, true, false, List, [], ◌∷◌, ◌++◌, append_assoc,
  arith, has, has-append, remove, remove-append_last, Distinct, put, put_same, bias,
}
use mathlib.Core.Path.{subst}
use cs503_lab.Config.{empty}
use cs503_lab.Queue.{QTab, tail_of, getitem, getfirst, getlast, dequeue, clear_links, is_bad_qid}
use cs503_lab.Queue.Chain.{Chain, Chain-back, Distinct-Around}
use cs503_lab.Queue.Contents.{IsQid, Holds, Idle, Holds-idle, Idle-remove}
use cs503_lab.Queue.Remove.{
  getitem-Holds, is_empty-nil, is_empty-mem, take_first, getfirst-take_first,
}

pub getitem-key : (p : ℕ) (t : QTab) → (getitem p t).1.key ≡ t.key
unfolding getitem
getitem-key p t = refl

pub dequeue-key : (q : ℕ) (t : QTab) → (dequeue q t).1.key ≡ t.key
unfolding dequeue
dequeue-key q t = ground arith

pub is_bad_qid-IsQid : (q : ℕ) → IsQid q → is_bad_qid q ≡ false
unfolding bias
is_bad_qid-IsQid q iq = ground arith

module _ {t : QTab} {c : ℕ → List ℕ} (h : Holds t c) (q : ℕ) (iq : IsQid q) where
  dequeue-getfirst : (p : ℕ) → has p (c q) ≡ true → dequeue q t ≡ clear_links (getfirst q t)
  unfolding dequeue
  dequeue-getfirst p m = rw (is_bad_qid-IsQid q iq, is_empty-mem h q iq p m)

  dequeue-nil : c q ≡ [] → dequeue q t ≡ (empty, t)
  unfolding dequeue
  dequeue-nil e = rw (is_bad_qid-IsQid q iq, is_empty-nil h q iq e)

  clear_links-Holds :
      (p : ℕ) (c' : ℕ → List ℕ) (r : ℕ × QTab)
      → r.0 ≡ p
      → Holds r.1 c'
      → Idle c' p
      → ((clear_links r).0 ≡ p) × Holds (clear_links r).1 c'
  unfolding clear_links
  clear_links-Holds p c' (i, t') e h' idle =
      (e, Holds-idle _ i h' (subst (Idle c') (sym e) idle) (λ j m. ground arith))

  dequeue_go :
      (l : List ℕ)
      → c q ≡ l
      → ((dequeue q t).0 ≡ (take_first l).0) × Holds (dequeue q t).1 (put c q (take_first l).1)
  dequeue_go [] e =
      rw (dequeue-nil e) (refl, subst (Holds t) (sym (ap (put c q) (sym e) ∙ put_same c q)) h)
  dequeue_go (p ∷ xs) e =
      let m : has p (c q) ≡ true = rw e (ground arith) in
      let r : remove p (c q) ≡ xs = rw e (ground arith) in
      let f = getfirst-take_first h q iq in
      rw (dequeue-getfirst p m) (
        clear_links-Holds p (put c q xs) (getfirst q t) (f.0 ∙ ap (λ l. (take_first l).0) e)
          (subst (λ l. Holds (getfirst q t).1 (put c q l)) (ap (λ l. (take_first l).1) e) f.1)
          (subst (λ l. Idle (put c q l) p) r (Idle-remove q p h iq m)))

  -- `dequeue` returns the first process and takes it out, or returns EMPTY; no other queue
  -- changes.
  pub dequeue-take_first :
      ((dequeue q t).0 ≡ (take_first (c q)).0)
      × Holds (dequeue q t).1 (put c q (take_first (c q)).1)
  dequeue-take_first = dequeue_go (c q) refl

  -- `getlast` returns the last process of a queue that has one, and takes it out.
  pub getlast-append_last :
      (p : ℕ) (xs : List ℕ)
      → c q ≡ xs ++ p ∷ []
      → ((getlast q t).0 ≡ p) × Holds (getlast q t).1 (put c q xs)
  unfolding getlast
  getlast-append_last p xs e =
      let m : has p (c q) ≡ true = rw (e, has-append) (ground arith) in
      let d = Distinct-Around xs p [] (subst Distinct e (h.distinct q iq)) in
      let out : has p xs ≡ false = elim (Bool-cases (has p xs)) [
        | inl i ↦ absurd ((d.front p i).0 refl)
        | inr o ↦ o
      ] in
      let r : remove p (c q) ≡ xs = rw e (remove-append_last p xs out) in
      let b = Chain-back t (q ∷ xs) p (tail_of q ∷ []) (
        subst (Chain t)
          (ap (λ l. q ∷ l)
            (ap (λ l. l ++ tail_of q ∷ []) e ∙ append_assoc xs (p ∷ []) (tail_of q ∷ [])))
          (h.chain q iq)) in
      rw (is_empty-mem h q iq p m, b.0.1)
        (refl, subst (λ l. Holds (getitem p t).1 (put c q l)) r (getitem-Holds h q iq p m))
