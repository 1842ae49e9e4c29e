-- ===== src/Frames/Claim.antt =====
-- The frame table against the list of the frames that hold pages.
use cs503_lab.Base.{
  ℕ, zero, suc, ◌+◌, ◌≤◌, ◌<◌, ◌≡◌, refl, sym, ◌∙◌, ◌≢◌, ◌⊎◌, inl, inr, true, false, not, List, [],
  ◌∷◌, ◌++◌, arith, ◌==◌, if◌then◌else◌, has, has-append, has-remove, remove, none, some,
  Bool-cases, ltb,
}
use mathlib.Core.Path.{subst}
use cs503_lab.Queue.Chain.{Chain}
use cs503_lab.Queue.Contents.{nodes}
use cs503_lab.Frames.{
  Frames, FrameUse, is_page, is_null_page, nframes, fifo_head, unlink_fifo, claim, find_null,
  init_frames, set_kernel_tables, set_ivtentry_pd_pt, reset_ivtentry, init_fifo,
}
use cs503_lab.Frames.Fifo.{links, Lined, append_fifo-Lined, unlink_fifo-Lined}

-- The queue is `l`, and it is the frames that hold pages.
pub record IsFrames (t : Frames) (l : List ℕ) : Type 0 where
  pub lined : Lined t l
  pub pages : (i : ℕ) → i < nframes → has i l ≡ is_page (t.use_of i)
  pub numbers : (i : ℕ) → i < nframes → t.frame_number i ≡ i

-- The same, but for frame `f`, which is on its way from one use to another.
pub record LooseFrames (f : ℕ) (t : Frames) (l : List ℕ) : Type 0 where
  pub lined : Lined t l
  pub within : f < nframes
  pub out : has f l ≡ false
  pub pages : (i : ℕ) → i < nframes → i ≢ f → has i l ≡ is_page (t.use_of i)
  pub numbers : (i : ℕ) → i < nframes → t.frame_number i ≡ i

-- The queue after frame `f` was given for `purpose`.
abbrev pub claimed : FrameUse → ℕ → List ℕ → List ℕ
claimed purpose f l = if is_page purpose then l ++ f ∷ [] else l

pub Lined-links : {t t' : Frames} {l : List ℕ} → links t' ≡ links t → Lined t l → Lined t' l
Lined-links {l} e v = record {
  chain = subst (λ q. Chain q (nodes fifo_head l)) (sym e) v.chain;
  distinct = v.distinct;
  frames = v.frames;
}

-- A frame outside the queue is claimed.
pub claim-IsFrames :
    {f : ℕ} {t : Frames} {l : List ℕ} (pid vpn : ℕ) (purpose : FrameUse)
    → LooseFrames f t l
    → IsFrames (claim f pid vpn purpose t) (claimed purpose f l)
unfolding claim
claim-IsFrames {f} {t} {l} pid vpn purpose v = elim (Bool-cases (is_page purpose)) [
  | inl e ↦ rw e (record {
    lined = append_fifo-Lined (Lined-links refl v.lined) f v.within v.out;
    pages = λ i lt. ground (arith, v.pages i lt, has-append i l (f ∷ []));
    numbers = λ i lt. v.numbers i lt;
  })
  | inr e ↦ rw e (record {
    lined = Lined-links refl v.lined;
    pages = λ i lt. ground (arith, v.pages i lt, v.out);
    numbers = v.numbers;
  })
]

-- An unused frame is not in the queue.
pub null-LooseFrames :
    {t : Frames} {l : List ℕ} (f : ℕ)
    → IsFrames t l
    → f < nframes
    → is_null_page (t.use_of f) ≡ true
    → LooseFrames f t l
null-LooseFrames f v lt e = record {
  lined = v.lined;
  within = lt;
  out = v.pages f lt ∙ ground arith;
  pages = λ i il ne. v.pages i il;
  numbers = v.numbers;
}

unlink_fifo-use : (i : ℕ) (t : Frames) → (unlink_fifo i t).use_of ≡ t.use_of
unfolding unlink_fifo
unlink_fifo-use i t = refl

unlink_fifo-number : (i : ℕ) (t : Frames) → (unlink_fifo i t).frame_number ≡ t.frame_number
unfolding unlink_fifo
unlink_fifo-number i t = refl

-- A frame that was taken off the queue is not in it.
pub unlink-LooseFrames :
    {t : Frames} {l : List ℕ} (f : ℕ)
    → IsFrames t l
    → has f l ≡ true
    → LooseFrames f (unlink_fifo f t) (remove f l)
unlink-LooseFrames {t} {l} f v m = record {
  lined = unlink_fifo-Lined v.lined f m;
  within = v.lined.frames f m;
  out = ground (arith, has-remove f f l v.lined.distinct);
  pages = λ i il ne.
      rw (unlink_fifo-use f t) (ground (arith, has-remove i f l v.lined.distinct, v.pages i il));
  numbers = λ i il. rw (unlink_fifo-number f t) (v.numbers i il);
}

-- After the start the queue is empty: the first six frames are the null process's page directory and
-- the kernel's five page tables, and all others are unused.
pub init_frames-IsFrames :
    (t : Frames)
    → IsFrames (init_frames t) []
      × ((i : ℕ) → i < nframes → is_null_page ((init_frames t).use_of i) ≡ not (ltb i 6))
unfolding init_frames init_fifo reset_ivtentry set_kernel_tables set_ivtentry_pd_pt
init_frames-IsFrames t = (
  record {
    lined = record { chain = ((refl, refl), tt); distinct = tt; frames = λ i m. absurd (cc) };
    pages = λ i lt. ground arith;
    numbers = λ i lt. ground arith;
  },
  λ i lt. ground arith,
)

-- What the search for an unused frame finds: the first one.
pub record FirstNull (t : Frames) (i n : ℕ) (f : ℕ) : Type 0 where
  pub within : (i ≤ f) × (f < i + n)
  pub unused : is_null_page (t.use_of f) ≡ true
  pub least : (j : ℕ) → i ≤ j → j < f → is_null_page (t.use_of j) ≡ false

pub find_null-FirstNull :
    (t : Frames) (n i : ℕ)
    → ((f : ℕ) × (find_null t n i ≡ some f) × FirstNull t i n f)
      ⊎ ((find_null t n i ≡ none)
          × ((j : ℕ) → i ≤ j → j < i + n → is_null_page (t.use_of j) ≡ false))
unfolding find_null
find_null-FirstNull t zero i = inr (refl, λ j le lt. absurd (omega arith))
find_null-FirstNull t (suc n) i = elim (Bool-cases (is_null_page (t.use_of i))) [
  | inl e ↦ rw e (
      inl (
        i,
        refl,
        record {
          within = (omega arith, omega arith);
          unused = e;
          least = λ j le lt. absurd (omega arith);
        },
      ))
  | inr e ↦ rw e (elim (find_null-FirstNull t n (i + 1)) [
    | inl h ↦ inl (
      h.0,
      h.1,
      record {
        within = (omega (arith, h.2.within), omega (arith, h.2.within));
        unused = h.2.unused;
        least = λ j le lt. at j i e (λ ne. h.2.least j (omega arith) lt);
      },
    )
    | inr h ↦ inr (h.0, λ j le lt. at j i e (λ ne. h.1 j (omega arith) (omega arith)))
  ])
]
  where
    at :
        (j i : ℕ)
        → is_null_page (t.use_of i) ≡ false
        → (j ≢ i → is_null_page (t.use_of j) ≡ false)
        → is_null_page (t.use_of j) ≡ false
    at j i e other = elim (Bool-cases (j == i)) [
      | inl s ↦
          let same : i ≡ j = ground arith in subst (λ k. is_null_page (t.use_of k) ≡ false) same e
      | inr s ↦ other (ground arith)
    ]
