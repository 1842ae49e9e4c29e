-- ===== src/Paging/Replace/Clock.antt =====
-- get_free_frame_number under the global clock algorithm.
use cs503_lab.Base.{
  ℕ, ◌+◌, ◌*◌, ◌<◌, ◌≡◌, refl, sym, ap, ◌∙◌, ◌≢◌, ◌⊎◌, inl, inr, ◌||◌, true, false, List, [], ◌∷◌,
  ◌++◌, length-le_of_Distinct, arith, ◌==◌, has, remove, none, some, ltb, sub32,
}
use mathlib.Core.Path.{subst}
use cs503_lab.Config.{is_bad_pid}
use cs503_lab.Queue.Chain.{Chain}
use cs503_lab.Frames.Fifo.{links}
use cs503_lab.Frames.{
  Frames, FrameUse, nframes, fifo_head, fifo_tail, null_entry, unlink_fifo, find_null,
}
use cs503_lab.Frames.Claim.{IsFrames, claimed, Lined-links, find_null-FirstNull, unlink-LooseFrames}
use cs503_lab.Backing.{first_block}
use cs503_lab.Backing.Pages.{Written}
use cs503_lab.Paging.{Paging, Entry, page_size, fifo, gca, get_store_offset, find_store}
use cs503_lab.Paging.Replace.{
  page_word, set_hand, choose, choose_gca, free_frame, get_free_frame_number,
}
use cs503_lab.Paging.Replace.Evict.{Evictable, replace-Replaced, dir_word}
use cs503_lab.Paging.Replace.Oldest.{Full, enter}
use cs503_lab.Paging.Replace.Turn.{Turned, set_bits, set_bits-length, page_word-base}
use cs503_lab.Paging.Replace.Stop.{Found, turn-Turned, turn-first}

-- The queue is `l`, the hand is at its head or at one of its pages, and what is dirty was accessed.
pub record ClockReady (s : Paging) (l : List ℕ) : Type 0 where
  pub queue : IsFrames s.frames l
  pub policy : s.currpolicy ≡ gca
  pub hand : (s.frames.fifo_hand ≡ fifo_head) ⊎ (has s.frames.fifo_hand l ≡ true)
  pub accessed :
      (i : ℕ)
      → has i l ≡ true
      → (s.entries (page_word i s)).dirty ≡ true
      → (s.entries (page_word i s)).acc ≡ true

-- The oldest page is a page of the queue.
pub first_has :
    (s : Paging) (l : List ℕ)
    → Chain (links s.frames) (fifo_head ∷ (l ++ fifo_tail ∷ []))
    → l ≢ []
    → has (s.frames.fifo_prev fifo_head) l ≡ true
first_has s [] c ne = absurd (ne refl)
first_has s (x ∷ l) c ne = let n : s.frames.fifo_prev fifo_head ≡ x = c.0.0 in ground arith

few_bits :
    {t : Frames} {l : List ℕ}
    → IsFrames t l
    → (word : ℕ → ℕ) (en : ℕ → Entry) → set_bits en word l < 150
few_bits {t} {l} v word en = omega (
  arith,
  set_bits-length en word l,
  length-le_of_Distinct nframes l v.lined.distinct v.lined.frames,
)

module _ {s : Paging} {l : List ℕ} where
  -- The hand stops within two turns.
  turn-Found : ClockReady s l → l ≢ [] → Found s l (λ j. page_word j s) (3 * nframes)
  turn-Found c ne = elim c.hand [
    | inl e ↦
        let first = first_has s l c.queue.lined.chain ne in
        let t : Paging = set_hand (s.frames.fifo_prev fifo_head) s in
        let lt = c.queue.lined.frames (s.frames.fifo_prev fifo_head) first in
        let r =
          turn-Turned 150 t
            (record {
              queue = record {
                lined = Lined-links refl c.queue.lined;
                pages = c.queue.pages;
                numbers = c.queue.numbers;
              };
              words = λ j. refl;
              hand = first;
              accessed = c.accessed;
            })
            (few_bits c.queue (λ j. page_word j s) s.entries) in
        (
          r.0,
          r.1,
          turn-first 149 s (ground arith) (ground arith) (ground arith) (ground arith) ∙ r.2,
          record { member = r.3.member; clean = r.3.clean; base = r.3.base; kept = r.3.kept },
        )
    | inr h ↦
        turn-Turned 150 s
          (record { queue = c.queue; words = λ j. refl; hand = h; accessed = c.accessed })
          (few_bits c.queue (λ j. page_word j s) s.entries)
  ]

  -- Under the clock algorithm the page is chosen where the hand stops, and leaves the queue.
  choose-Found :
      ClockReady s l
      → l ≢ []
      → (f : ℕ) × (s' : Paging) × (choose s
          ≡ some (f, record s' { frames = unlink_fifo f s'.frames }))
        × Turned s l (λ j. page_word j s) f s'
  unfolding choose choose_gca
  choose-Found c ne =
      let r = turn-Found c ne in
      let first = first_has s l c.queue.lined.chain ne in
      let known : (s.frames.fifo_prev fifo_head == null_entry) ≡ false =
        ground (arith, c.queue.lined.frames (s.frames.fifo_prev fifo_head) first) in
      let not_fifo : (s.currpolicy == fifo) ≡ false = ground (arith, c.policy) in
      let is : (s.currpolicy == gca) ≡ true = ground (arith, c.policy) in
      let there : ltb r.0 nframes ≡ true = ground (arith, c.queue.lined.frames r.0 r.3.member) in
      (r.0, r.1, rw (known, not_fifo, is, r.2, there) refl, r.3)

-- What the hand's way leaves of a page that can be replaced
Evictable-turned :
    {s : Paging} {f id page : ℕ} (en : ℕ → Entry) (t : Frames)
    → ((w : ℕ) → (en w).base ≡ (s.entries w).base)
    → t.owner ≡ s.frames.owner
    → t.vpage_num ≡ s.frames.vpage_num
    → t.use_of ≡ s.frames.use_of
    → Evictable f s id page
    → Evictable f (record (enter s) { entries = en; frames = t }) id page
unfolding get_store_offset find_store
Evictable-turned {s} {f} {id} {page} en t same o v u e =
    let table : sub32 (en (dir_word f s)).base 1024 ≡ sub32 (s.entries (dir_word f s)).base 1024 =
      ap (λ b. sub32 b 1024) (same (dir_word f s)) in
    record {
      mapped = rw (o, v) e.mapped;
      store = e.store;
      in_table = rw (o, v, table) e.in_table;
      table = rw (o, v, u, table) e.table;
    }

-- What the clock algorithm leaves: the page in frame `f` is replaced, its bits were clear when the
-- hand stood there, and the hand is at the page behind it.
pub record Clocked (f pid vpn : ℕ) (purpose : FrameUse) (id page : ℕ) (s s' : Paging) (l : List ℕ)
    : Type 0 where
  pub chosen : has f l ≡ true
  pub queue : IsFrames s'.frames (claimed purpose f (remove f l))
  pub given : s'.frames.owner f ≡ pid
  pub unmapped : (s'.entries (page_word f s)).pres ≡ false
  pub clean : ((s'.entries (page_word f s)).acc || (s'.entries (page_word f s)).dirty) ≡ false
  pub stored : Written 8 (first_block id page) ((f + 1024) * page_size) s.mem s.server s'.server
  pub hand : s'.frames.fifo_hand ≡ s.frames.fifo_prev f
  pub sem : s'.get_frame_sem ≡ s.get_frame_sem
  pub policy : s'.currpolicy ≡ s.currpolicy

module _ {s : Paging} {l : List ℕ} (c : ClockReady s l) (ne : l ≢ []) (full : Full s) where
  -- The frames, the replacement of the page in `f` and the hand's way to it, put together
  pub replaced :
      (pid vpn : ℕ) (purpose : FrameUse) (f id page : ℕ) (en : ℕ → Entry)
      → s.get_frame_sem ≢ 0
      → is_bad_pid s.kernel.procs s.kernel.currpid ≡ false
      → Evictable f s id page
      → has f l ≡ true
      → ((w : ℕ) → (en w).base ≡ (s.entries w).base)
      → ((en (page_word f s)).acc || (en (page_word f s)).dirty) ≡ false
      → choose (enter s)
        ≡ some (
          f,
          record (enter s) {
            entries = en;
            frames = unlink_fifo f (record (s.frames) { fifo_hand = s.frames.fifo_prev f });
          },
        )
      → (s' : Paging) × (get_free_frame_number pid vpn purpose s ≡ some (f, s'))
        × Clocked f pid vpn purpose id page s s' l
  unfolding get_free_frame_number free_frame unlink_fifo
  replaced pid vpn purpose f id page en sem alive e m base clean chosen =
      let free : (s.get_frame_sem == 0) ≡ false = ground arith in
      let none_left : find_null s.frames nframes 0 ≡ none =
        elim (find_null-FirstNull s.frames nframes 0) [
          | inl h ↦ absurd (ground (arith, h.2.unused, full h.0 (omega (arith, h.2.within))))
          | inr h ↦ h.0
        ] in
      let hand : Frames = record (s.frames) { fifo_hand = s.frames.fifo_prev f } in
      let t : Paging = record (enter s) { entries = en; frames = unlink_fifo f hand } in
      let word : page_word f t ≡ page_word f s = page_word-base s en base f in
      let loose =
        unlink-LooseFrames {t = hand} {l = l} f
          (record {
            lined = Lined-links refl c.queue.lined;
            pages = c.queue.pages;
            numbers = c.queue.numbers;
          })
          m in
      let r =
        replace-Replaced {s = t} pid vpn purpose
          (Evictable-turned en (unlink_fifo f hand) base refl refl refl e)
          (record {
            alive = alive;
            next_page = λ p. absurd (other p);
            next_proc = λ p. absurd (other p);
          })
          loose in
      (
        record (r.0) { get_frame_sem = r.0.get_frame_sem + 1 },
        rw (free, none_left, chosen, r.1) refl,
        record {
          chosen = m;
          queue = r.2.queue;
          given = r.2.given;
          unmapped = subst (λ w. (r.0.entries w).pres ≡ false) word r.2.unmapped;
          clean =
              subst (λ w. ((r.0.entries w).acc || (r.0.entries w).dirty) ≡ false) word
                (r.2.bits ∙ subst (λ w. ((en w).acc || (en w).dirty) ≡ false) (sym word) clean);
          stored = r.2.stored;
          hand = r.2.hand;
          sem = omega (arith, r.2.sem, sem);
          policy = ap (λ p. p.currpolicy) r.2.kept;
        },
      )
    where
      other : s.currpolicy ≢ fifo
      other p = absurd (ground (arith, c.policy))

  -- When every frame is in use, `get_free_frame_number` under the clock algorithm returns, if the hand
  -- is at the head or at a page of the queue (not at the tail), a page that is marked as dirty is also
  -- marked as accessed, the queue is not empty, no other caller holds the semaphore, the current
  -- process exists, and each page has a page table and a store that can be written: it replaces a page
  -- whose two bits were clear when the hand stopped, the queue loses the page, and the hand goes to the
  -- entry behind it.
  pub get_free_frame_number-Clocked :
      (pid vpn : ℕ) (purpose : FrameUse)
      → s.get_frame_sem ≢ 0
      → is_bad_pid s.kernel.procs s.kernel.currpid ≡ false
      → ((i : ℕ) → has i l ≡ true → (id : ℕ) × (page : ℕ) × Evictable i s id page)
      → (f : ℕ) × (id : ℕ) × (page : ℕ) × (s' : Paging) × (get_free_frame_number pid vpn purpose s
          ≡ some (f, s'))
        × Clocked f pid vpn purpose id page s s' l
  get_free_frame_number-Clocked pid vpn purpose sem alive stores =
      let r =
        choose-Found {s = enter s}
          (record { queue = c.queue; policy = c.policy; hand = c.hand; accessed = c.accessed })
          ne in
      let e = stores r.0 r.3.member in
      let kept = ap (λ p. some (r.0, record p { frames = unlink_fifo r.0 p.frames })) r.3.kept in
      let w =
        replaced pid vpn purpose r.0 e.0 e.1 r.1.entries sem alive e.2 r.3.member r.3.base r.3.clean
          (r.2 ∙ kept) in
      (r.0, e.0, e.1, w.0, w.1, w.2)
