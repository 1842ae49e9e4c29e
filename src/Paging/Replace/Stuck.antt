-- ===== src/Paging/Replace/Stuck.antt =====
-- The global clock algorithm after it replaced the newest page.
use cs503_lab.Base.{
  ℕ, suc, ◌≡◌, refl, ◌∙◌, inl, inr, true, false, List, [], ◌∷◌, ◌++◌, append_assoc, arith, ◌==◌,
  none, some, zero, has, has-append, ltb, ◌<◌, ◌≢◌, Bool-cases,
}
use mathlib.Core.Path.{subst}
use cs503_lab.Queue.Chain.{Chain, Chain-back}
use cs503_lab.Frames.{Frames, FrameUse, nframes, fifo_head, fifo_tail, null_entry, unlink_fifo}
use cs503_lab.Frames.Fifo.{links}
use cs503_lab.Paging.{Paging, fifo, gca}
use cs503_lab.Config.{is_bad_pid}
use cs503_lab.Paging.Replace.Evict.{Evictable}
use cs503_lab.Paging.Replace.{page_word, set_hand, turn, choose, choose_gca, get_free_frame_number}
use cs503_lab.Paging.Replace.Oldest.{Full, enter}
use cs503_lab.Paging.Replace.Clock.{ClockReady, replaced, first_has}

-- With the hand at the tail the loop panics at once.
turn-tail : (n : ℕ) (s : Paging) → s.frames.fifo_hand ≡ fifo_tail → turn (suc n) s ≡ none
unfolding turn
turn-tail n s e = let at : (s.frames.fifo_hand == fifo_tail) ≡ true = ground arith in rw at refl

choose-tail : (s : Paging) → s.currpolicy ≡ gca → s.frames.fifo_hand ≡ fifo_tail → choose s ≡ none
unfolding choose choose_gca
choose-tail s p e =
    let not_fifo : (s.currpolicy == fifo) ≡ false = ground arith in
    let is : (s.currpolicy == gca) ≡ true = ground arith in
    elim (Bool-cases (s.frames.fifo_prev fifo_head == null_entry)) [
      | inl n ↦ rw n refl
      | inr n ↦ rw (n, not_fifo, is, turn-tail 149 s e) refl
    ]

-- Behind the newest page is the tail.
newest-tail :
    (t : Frames) (l : List ℕ) (f : ℕ)
    → Chain (links t) (fifo_head ∷ ((l ++ f ∷ []) ++ fifo_tail ∷ []))
    → t.fifo_prev f ≡ fifo_tail
newest-tail t l f c =
    let e = append_assoc l (f ∷ []) (fifo_tail ∷ []) in
    (Chain-back (links t) (fifo_head ∷ l) f (fifo_tail ∷ [])
      (subst (λ ns. Chain (links t) (fifo_head ∷ ns)) e c)).0.0

turn-stuck : (n : ℕ) (s : Paging) → s.frames.fifo_hand ≡ fifo_tail → turn n s ≡ none
unfolding turn
turn-stuck zero s e = refl
turn-stuck (suc n) s e = turn-tail n s e

-- A page at the hand whose two bits are clear is taken, and the hand moves on without a look at the tail.
turn-here :
    (n : ℕ) (s : Paging)
    → s.frames.fifo_hand < nframes
    → s.frames.frame_number s.frames.fifo_hand ≡ s.frames.fifo_hand
    → (s.entries (page_word s.frames.fifo_hand s)).acc ≡ false
    → (s.entries (page_word s.frames.fifo_hand s)).dirty ≡ false
    → turn (suc n) s ≡ some (s.frames.fifo_hand, set_hand (s.frames.fifo_prev s.frames.fifo_hand) s)
unfolding turn
turn-here n s lt number acc dirty =
    let h : (s.frames.fifo_hand == fifo_head) ≡ false = ground (arith, lt) in
    let t : (s.frames.fifo_hand == fifo_tail) ≡ false = ground (arith, lt) in
    let u : (s.frames.fifo_hand == null_entry) ≡ false = ground (arith, lt) in
    rw (h, t, u, acc, dirty, number) refl

module _ {s : Paging} (l : List ℕ) (c : ClockReady s (l ++ s.frames.fifo_hand ∷ [])) (full : Full s)
    (acc : (s.entries (page_word s.frames.fifo_hand s)).acc ≡ false)
    (dirty : (s.entries (page_word s.frames.fifo_hand s)).dirty ≡ false) where
  newest : ℕ
  newest = s.frames.fifo_hand

  newest_in : has newest (l ++ newest ∷ []) ≡ true
  unfolding newest
  newest_in = ground (arith, has-append s.frames.fifo_hand l (s.frames.fifo_hand ∷ []))

  choose-newest :
      choose (enter s)
      ≡ some (
        newest,
        record (enter s) {
          frames = unlink_fifo newest (record (s.frames) { fifo_hand = s.frames.fifo_prev newest });
        },
      )
  unfolding choose choose_gca newest
  choose-newest =
      let lt = c.queue.lined.frames s.frames.fifo_hand newest_in in
      let first =
        first_has s (l ++ s.frames.fifo_hand ∷ []) c.queue.lined.chain (λ e.
          absurd (ground (arith, subst (λ m. has s.frames.fifo_hand m ≡ true) e newest_in))) in
      let known : (s.frames.fifo_prev fifo_head == null_entry) ≡ false =
        ground (arith, c.queue.lined.frames (s.frames.fifo_prev fifo_head) first) in
      let not_fifo : (s.currpolicy == fifo) ≡ false = ground (arith, c.policy) in
      let is : (s.currpolicy == gca) ≡ true = ground (arith, c.policy) in
      let there : ltb s.frames.fifo_hand nframes ≡ true = ground (arith, lt) in
      rw
        (
          known,
          not_fifo,
          is,
          turn-here 149 (enter s) lt (c.queue.numbers s.frames.fifo_hand lt) acc dirty,
          there,
        )
        refl

  -- When every frame is in use under the clock algorithm and the hand stands at the newest page, whose
  -- two bits are clear, `get_free_frame_number` replaces that page, if it has a page table and a store
  -- that can be written, no other caller holds the semaphore, the current process exists, and no page
  -- is marked as dirty but not as accessed. The call returns and gives the semaphore back, but leaves
  -- the hand at the tail of the queue, where the loop stops with a panic at its first step: the next
  -- search for a page to replace finds none, however many steps it is given.
  pub get_free_frame_number-newest :
      {id page : ℕ} (pid vpn : ℕ) (purpose : FrameUse)
      → s.get_frame_sem ≢ 0
      → is_bad_pid s.kernel.procs s.kernel.currpid ≡ false
      → Evictable s.frames.fifo_hand s id page
      → (s' : Paging) × (get_free_frame_number pid vpn purpose s ≡ some (s.frames.fifo_hand, s'))
        × (s'.frames.fifo_hand ≡ fifo_tail)
        × (s'.get_frame_sem ≡ s.get_frame_sem)
        × (choose s' ≡ none)
        × ((n : ℕ) → turn n s' ≡ none)
  unfolding newest
  get_free_frame_number-newest pid vpn purpose sem alive e =
      let r =
        replaced c
          (λ n. absurd (ground (arith, subst (λ m. has s.frames.fifo_hand m ≡ true) n newest_in)))
          full pid vpn purpose s.frames.fifo_hand _ _ s.entries sem alive e newest_in (λ w. refl)
          (rw (acc, dirty) refl) choose-newest in
      let hand = r.2.hand ∙ newest-tail s.frames l s.frames.fifo_hand c.queue.lined.chain in
      (
        r.0,
        r.1,
        hand,
        r.2.sem,
        choose-tail r.0 (r.2.policy ∙ c.policy) hand,
        λ n. turn-stuck n r.0 hand,
      )
