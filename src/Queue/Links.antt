-- ===== src/Queue/Links.antt =====
-- What taking a node out of a chain, and putting one in, does to the chain and to all else.
use cs503_lab.Base.{ℕ, ◌≡◌, true, false, List, [], ◌∷◌, ◌++◌, arith, has, has-append, Distinct}
use cs503_lab.Queue.{QTab, set_next, set_prev, getitem}
use cs503_lab.Queue.Chain.{
  Edge, Chain, SameNext, SamePrev, Chain-append, Chain-front, Chain-back, frame-front, frame-back,
  Distinct-Around,
}

-- The links of all entries outside `ns` are as before.
abbrev pub SameLinks : QTab → QTab → List ℕ → Type 0
SameLinks t t' ns = (i : ℕ) → has i ns ≡ false → (t'.next i ≡ t.next i) × (t'.prev i ≡ t.prev i)

pub SameLinks-Chain :
    (t t' : QTab) (ns ms : List ℕ)
    → SameLinks t t' ns
    → ((i : ℕ) → has i ms ≡ true → has i ns ≡ false)
    → Chain t ms
    → Chain t' ms
SameLinks-Chain t t' ns [] same apart c = c
SameLinks-Chain t t' ns (v ∷ ms) same apart c =
    frame-back t t' v ms (λ i h. (same i (apart i h)).0)
      (λ i h. (same i (apart i (ground arith))).1) c

-- `p` is linked in between `u` and `v`.
abbrev pub link_in : ℕ → ℕ → ℕ → QTab → QTab
link_in u p v t = set_prev v p (set_next u p (set_prev p u (set_next p v t)))

module _ (t : QTab) (ns : List ℕ) (u : ℕ) where
  -- The two ends are joined, and what joins them leaves both sides alone.
  join :
      (t' : QTab) (v : ℕ) (ms : List ℕ)
      → Chain t (ns ++ u ∷ [])
      → Chain t (v ∷ ms)
      → SameNext t t' ns
      → SamePrev t t' (ns ++ u ∷ [])
      → SameNext t t' (v ∷ ms)
      → SamePrev t t' ms
      → Edge t' u v
      → Chain t' (ns ++ u ∷ v ∷ ms)
  join t' v ms c d sn sp sn' sp' e =
      Chain-append t' ns u (v ∷ ms) (frame-front t t' ns u sn sp c)
        (e, frame-back t t' v ms sn' sp' d)

  module _ (p v : ℕ) (ms : List ℕ) where
    unlink-Chain :
        Chain t (ns ++ u ∷ p ∷ v ∷ ms)
        → Distinct (ns ++ u ∷ p ∷ v ∷ ms)
        → Chain (set_prev v u (set_next u v t)) (ns ++ u ∷ v ∷ ms)
    unlink-Chain c d =
        let r = Distinct-Around ns u (p ∷ v ∷ ms) d in
        join (set_prev v u (set_next u v t)) v ms (Chain-front t ns u (p ∷ v ∷ ms) c)
          (Chain-back t ns u (p ∷ v ∷ ms) c).1.1 (λ i h. ground (arith, r.front i))
          (λ i h. ground (arith, has-append i ns (u ∷ []), r.front i, r.here))
          (λ i h. ground (arith, r.here, r.back)) (λ i h. ground (arith, r.here, r.back))
          (ground arith)

    pub getitem-Chain :
        Chain t (ns ++ u ∷ p ∷ v ∷ ms)
        → Distinct (ns ++ u ∷ p ∷ v ∷ ms)
        → Chain (getitem p t).1 (ns ++ u ∷ v ∷ ms) × SameLinks t (getitem p t).1 (u ∷ v ∷ [])
    unfolding getitem
    getitem-Chain c d =
        let back = Chain-back t ns u (p ∷ v ∷ ms) c in
        rw (back.1.0.0, back.0.1) (unlink-Chain c d, λ i h. ground arith)

    pub link_in-Chain :
        Chain t (ns ++ u ∷ v ∷ ms)
        → Distinct (ns ++ u ∷ v ∷ ms)
        → has p (ns ++ u ∷ v ∷ ms) ≡ false
        → Chain (link_in u p v t) (ns ++ u ∷ p ∷ v ∷ ms)
          × SameLinks t (link_in u p v t) (p ∷ u ∷ v ∷ [])
    link_in-Chain c d new =
        let r = Distinct-Around ns u (v ∷ ms) d in
        let out = has-append p ns (u ∷ v ∷ ms) in
        (
          Chain-append (link_in u p v t) ns u (p ∷ v ∷ ms)
              (frame-front t (link_in u p v t) ns u (λ i h. ground (arith, r.front i, out))
                (λ i h. ground (arith, has-append i ns (u ∷ []), r.front i, r.here, out))
                (Chain-front t ns u (v ∷ ms) c))
              (
                ground (arith, out, r.here),
                (
                  ground (arith, out, r.here, r.back),
                  frame-back t (link_in u p v t) v ms (λ i h. ground (arith, r.here, r.back, out))
                      (λ i h. ground (arith, r.here, r.back, out)) (Chain-back t ns u (v ∷ ms) c).1,
                ),
              ),
          λ i h. ground arith,
        )
