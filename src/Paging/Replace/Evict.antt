-- ===== src/Paging/Replace/Evict.antt =====
-- The replacement of a page: it is written to its backing store, and its frame is given away.
use cs503_lab.Base.{
  ◌≢◌, ℕ, ◌+◌, ◌*◌, ◌%◌, ◌^◌, ◌<◌, ◌≡◌, refl, sym, ap, ◌∙◌, inl, inr, ◌||◌, Bool, true, false, List,
  arith, ◌==◌, if◌then◌else◌, has, some, put, put_self, Bool-cases, ltb, sub32,
}
use mathlib.Core.Path.{subst}
use cs503_lab.Config.{is_bad_pid}
use cs503_lab.Frames.{Frames, FrameUse, is_page, is_page_tab, nframes, claim}
use cs503_lab.Frames.Claim.{IsFrames, Lined-links, LooseFrames, claimed, claim-IsFrames}
use cs503_lab.Backing.{Server, and_then, first_block}
use cs503_lab.Backing.Pages.{Ready, Written, write_bs-Written}
use cs503_lab.Paging.{
  Paging, page_size, fifo, pd_word, table_of, get_store_offset, hook_pswap_out, int16, next_slot,
}
use cs503_lab.Paging.Replace.{page_word, drop_ref, swap_out, replace}

-- The directory's entry for the page in frame `f`
abbrev pub dir_word : ℕ → Paging → ℕ
dir_word f s = pd_word (s.frames.owner f) (s.frames.vpage_num f * page_size % 2 ^ 32) s

-- The page in frame `f` has page `page` of store `id`, which can be written, and a page table.
pub record Evictable (f : ℕ) (s : Paging) (id page : ℕ) : Type 0 where
  pub mapped :
      get_store_offset (s.frames.owner f) (s.frames.vpage_num f * page_size % 2 ^ 32) s
      ≡ some (id, page)
  pub store : Ready id page s.server
  pub in_table : table_of (dir_word f s) s < nframes
  pub table : is_page_tab (s.frames.use_of (table_of (dir_word f s) s)) ≡ true

-- `s` with the page in frame `f` marked as not present, and with the server `r`
abbrev pub unmap : ℕ → Server → Paging → Paging
unmap f r s = record s {
  server = r;
  entries = put s.entries (page_word f s) (record (s.entries (page_word f s)) { pres = false });
}

unmap-base :
    (f : ℕ) (r : Server) (s : Paging) (w : ℕ) → ((unmap f r s).entries w).base ≡ (s.entries w).base
unmap-base f r s w = elim (Bool-cases (w == page_word f s)) [
  | inl e ↦
      let same : page_word f s ≡ w = ground arith in
      rw e (subst (λ u. (s.entries u).base ≡ (s.entries w).base) (sym same) refl)
  | inr e ↦ rw e refl
]

-- The page in `f` is swapped out: its bytes are in the store, no other block of the disk changed.
pub swap_out-Written :
    {f id page : ℕ} {s : Paging} (e : Evictable f s id page)
    → (r : Server) × (swap_out f s
        ≡ some (drop_ref (dir_word f s) (table_of (dir_word f s) s) (unmap f r s)))
      × Written 8 (first_block id page) ((f + 1024) * page_size) s.mem s.server r
unfolding swap_out
swap_out-Written {f} {id} {page} {s} e =
    let w = write_bs-Written e.store ((f + 1024) * page_size) s.mem in
    let same : table_of (dir_word f s) (unmap f w.0 s) ≡ table_of (dir_word f s) s =
      ap (λ b. sub32 b 1024) (unmap-base f w.0 s (dir_word f s)) in
    let lt : ltb (table_of (dir_word f s) s) nframes ≡ true = ground (arith, e.in_table) in
    (w.0, rw (e.mapped, w.1, same, lt, e.table) refl, w.2)

-- A page table frame may lose a page, or its use, without a change of the queue.
drop_ref-LooseFrames :
    {f : ℕ} (s : Paging) {l : List ℕ} (pd table : ℕ)
    → LooseFrames f s.frames l
    → is_page_tab (s.frames.use_of table) ≡ true
    → LooseFrames f (drop_ref pd table s).frames l
drop_ref-LooseFrames {f} s {l} pd table v tab =
    elim (Bool-cases (sub32 (s.frames.ref_count table) 1 == 0)) [
      | inl e ↦ rw e (record {
        lined = Lined-links refl v.lined;
        within = v.within;
        out = v.out;
        pages = λ i lt ne. at i (v.pages i lt ne);
        numbers = v.numbers;
      })
      | inr e ↦ rw e (record {
        lined = Lined-links refl v.lined;
        within = v.within;
        out = v.out;
        pages = v.pages;
        numbers = v.numbers;
      })
    ]
  where
    not_page : (u : FrameUse) → is_page_tab u ≡ true → is_page u ≡ false
    not_page FrameUse.null_page e = refl
    not_page FrameUse.page_dir e = refl
    not_page FrameUse.page_tab e = refl
    not_page FrameUse.page e = absurd (cc)

    at :
        (i : ℕ)
        → has i l ≡ is_page (s.frames.use_of i)
        → has i l ≡ is_page (put s.frames.use_of table FrameUse.null_page i)
    at i old = elim (Bool-cases (i == table)) [
      | inl e ↦
          let same : table ≡ i = ground arith in
          rw e (
            old
            ∙ not_page (s.frames.use_of i)
                (subst (λ j. is_page_tab (s.frames.use_of j) ≡ true) same tab))
      | inr e ↦ rw e old
    ]

-- The hook finds the page in frame `f` to be the one that the policy replaces.
pub record Expected (f : ℕ) (s : Paging) : Type 0 where
  pub alive : is_bad_pid s.kernel.procs s.kernel.currpid ≡ false
  pub next_page : s.currpolicy ≡ fifo → s.alloc_page s.reclaimframe ≡ s.frames.vpage_num f
  pub next_proc : s.currpolicy ≡ fifo → s.alloc_page_proc s.reclaimframe ≡ int16 (s.frames.owner f)

-- The slot of the hook's ring that the next replacement is checked against
abbrev pub reclaimed : Paging → ℕ
reclaimed s = if s.currpolicy == fifo then next_slot s.reclaimframe else s.reclaimframe

hook_pswap_out-Expected :
    (s : Paging) (pid vpn : ℕ)
    → is_bad_pid s.kernel.procs s.kernel.currpid ≡ false
    → (s.currpolicy ≡ fifo → s.alloc_page s.reclaimframe ≡ vpn)
    → (s.currpolicy ≡ fifo → s.alloc_page_proc s.reclaimframe ≡ int16 pid)
    → hook_pswap_out pid vpn s ≡ some (record s { reclaimframe = reclaimed s })
unfolding hook_pswap_out
hook_pswap_out-Expected s pid vpn alive page proc = elim (Bool-cases (s.currpolicy == fifo)) [
  | inl e ↦
      let policy : s.currpolicy ≡ fifo = ground arith in
      let same : (s.alloc_page s.reclaimframe == vpn) ≡ true = ground (arith, page policy) in
      let same' : (int16 pid == s.alloc_page_proc s.reclaimframe) ≡ true =
        ground (arith, proc policy) in
      rw (alive, e, same, same') refl
  | inr e ↦ rw (alive, e) refl
]

-- What a replacement of the page in frame `f` leaves: `s` is the state before.
pub record Replaced (f pid vpn : ℕ) (purpose : FrameUse) (id page : ℕ) (s s' : Paging) (l : List ℕ)
    : Type 0 where
  pub queue : IsFrames s'.frames (claimed purpose f l)
  pub given : s'.frames.owner f ≡ pid
  pub for_page : is_page purpose ≡ true → s'.frames.vpage_num f ≡ vpn
  pub unmapped : (s'.entries (page_word f s)).pres ≡ false
  pub bits :
      ((s'.entries (page_word f s)).acc || (s'.entries (page_word f s)).dirty)
      ≡ ((s.entries (page_word f s)).acc || (s.entries (page_word f s)).dirty)
  pub hand : s'.frames.fifo_hand ≡ s.frames.fifo_hand
  pub stored : Written 8 (first_block id page) ((f + 1024) * page_size) s.mem s.server s'.server
  pub checked : s'.reclaimframe ≡ reclaimed s
  pub base : (w : ℕ) → (s'.entries w).base ≡ (s.entries w).base
  -- While the page's table has other pages, no other entry is marked as not present.
  pub pres :
      (sub32 (s.frames.ref_count (table_of (dir_word f s) s)) 1 == 0) ≡ false
      → (w : ℕ) → w ≢ page_word f s
      → (s'.entries w).pres ≡ (s.entries w).pres
  pub kept : s' ≡ record s {
    server = s'.server;
    frames = s'.frames;
    entries = s'.entries;
    reclaimframe = s'.reclaimframe;
    get_frame_sem = s'.get_frame_sem;
  }
  pub sem : s'.get_frame_sem ≡ s.get_frame_sem

drop_ref-pres :
    (pd table w : ℕ) (s : Paging)
    → (s.entries w).pres ≡ false
    → ((drop_ref pd table s).entries w).pres ≡ false
drop_ref-pres pd table w s e = elim (Bool-cases (sub32 (s.frames.ref_count table) 1 == 0)) [
  | inl z ↦ rw z (elim (Bool-cases (w == pd)) [ inl a ↦ rw a refl | inr a ↦ rw a e ])
  | inr z ↦ rw z e
]

drop_ref-kept :
    (pd table : ℕ) (s : Paging)
    → drop_ref pd table s
      ≡ record s { frames = (drop_ref pd table s).frames; entries = (drop_ref pd table s).entries }
drop_ref-kept pd table s = elim (Bool-cases (sub32 (s.frames.ref_count table) 1 == 0)) [
  | inl z ↦ rw z refl
  | inr z ↦ rw z refl
]

drop_ref-bits :
    (pd table w : ℕ) (s : Paging) (b : Bool)
    → ((s.entries w).acc || (s.entries w).dirty) ≡ b
    → (((drop_ref pd table s).entries w).acc || ((drop_ref pd table s).entries w).dirty) ≡ b
drop_ref-bits pd table w s b e = elim (Bool-cases (sub32 (s.frames.ref_count table) 1 == 0)) [
  | inl z ↦ rw z (elim (Bool-cases (w == pd)) [
    | inl a ↦
        let same : w ≡ pd = ground arith in
        rw a (subst (λ v. ((s.entries v).acc || (s.entries v).dirty) ≡ b) same e)
    | inr a ↦ rw a e
  ])
  | inr z ↦ rw z e
]

drop_ref-base :
    (pd table w : ℕ) (s : Paging) → ((drop_ref pd table s).entries w).base ≡ (s.entries w).base
drop_ref-base pd table w s = elim (Bool-cases (sub32 (s.frames.ref_count table) 1 == 0)) [
  | inl z ↦ rw z (elim (Bool-cases (w == pd)) [
    | inl a ↦ let same : pd ≡ w = ground arith in rw a (ap (λ v. (s.entries v).base) same)
    | inr a ↦ rw a refl
  ])
  | inr z ↦ rw z refl
]

drop_ref-hand :
    (pd table : ℕ) (s : Paging) → (drop_ref pd table s).frames.fifo_hand ≡ s.frames.fifo_hand
drop_ref-hand pd table s = elim (Bool-cases (sub32 (s.frames.ref_count table) 1 == 0)) [
  | inl z ↦ rw z refl
  | inr z ↦ rw z refl
]

claim-hand :
    (f pid vpn : ℕ) (purpose : FrameUse) (t : Frames)
    → (claim f pid vpn purpose t).fifo_hand ≡ t.fifo_hand
unfolding claim
claim-hand f pid vpn purpose t = elim (Bool-cases (is_page purpose)) [
  | inl e ↦ rw e refl
  | inr e ↦ rw e refl
]

drop_ref-owner :
    (pd table : ℕ) (s : Paging)
    → ((drop_ref pd table s).frames.owner ≡ s.frames.owner)
      × ((drop_ref pd table s).frames.vpage_num ≡ s.frames.vpage_num)
drop_ref-owner pd table s = elim (Bool-cases (sub32 (s.frames.ref_count table) 1 == 0)) [
  | inl z ↦ rw z (refl, refl)
  | inr z ↦ rw z (refl, refl)
]

-- Frame `f` of `d` is given away; `s` is the state before the replacement.
abbrev give : ℕ → ℕ → ℕ → FrameUse → Paging → Paging → Paging
give f pid vpn purpose s d = record d {
  frames = claim f pid vpn purpose d.frames;
  reclaimframe = reclaimed s;
}

-- `d` differs from `s` in the server `r`, the frames and the entries only.
abbrev Differs : Paging → Server → Paging → Type 0
Differs s r d = d ≡ record s { server = r; frames = d.frames; entries = d.entries }

give-kept :
    (f pid vpn : ℕ) (purpose : FrameUse) (s d : Paging) (r : Server)
    → Differs s r d
    → give f pid vpn purpose s d ≡ record s {
      server = d.server;
      frames = claim f pid vpn purpose d.frames;
      entries = d.entries;
      reclaimframe = reclaimed s;
      get_frame_sem = d.get_frame_sem;
    }
give-kept f pid vpn purpose s d r e =
    ap {A = Paging} {B = Paging}
      (λ p. record p {
        server = d.server;
        frames = claim f pid vpn purpose d.frames;
        entries = d.entries;
        reclaimframe = reclaimed s;
        get_frame_sem = d.get_frame_sem;
      })
      e

hook-give :
    (f pid vpn : ℕ) (purpose : FrameUse) (s d : Paging) (r : Server)
    → Differs s r d
    → Expected f s
    → d.frames.owner ≡ s.frames.owner
    → d.frames.vpage_num ≡ s.frames.vpage_num
    → hook_pswap_out
        (d.frames.owner f)
        (d.frames.vpage_num f)
        (record d { frames = claim f pid vpn purpose d.frames })
      ≡ some (give f pid vpn purpose s d)
hook-give f pid vpn purpose s d r e x owner vpage =
    hook_pswap_out-Expected (record d { frames = claim f pid vpn purpose d.frames })
      (d.frames.owner f) (d.frames.vpage_num f)
      (subst (λ p. is_bad_pid p.kernel.procs p.kernel.currpid ≡ false) (sym e) x.alive)
      (subst (λ p. p.currpolicy ≡ fifo → p.alloc_page p.reclaimframe ≡ d.frames.vpage_num f) (sym e)
        (λ c. x.next_page c ∙ ap (λ g. g f) (sym vpage)))
      (subst
        (λ p. p.currpolicy ≡ fifo → p.alloc_page_proc p.reclaimframe ≡ int16 (d.frames.owner f))
        (sym e) (λ c. x.next_proc c ∙ ap (λ g. int16 (g f)) (sym owner)))
    ∙ ap (λ n. some (record d { frames = claim f pid vpn purpose d.frames; reclaimframe = n }))
        (ap (λ p. reclaimed p) e)

module _ {f id page : ℕ} {s : Paging} {l : List ℕ} (pid vpn : ℕ) (purpose : FrameUse) where
  -- The page in `f` is replaced, and the queue is the one that is left, with `f` as the newest page
  -- if it is given for a page.
  pub replace-Replaced :
      Evictable f s id page
      → Expected f s
      → LooseFrames f s.frames l
      → (s' : Paging) × (replace f pid vpn purpose s ≡ some (f, s'))
        × Replaced f pid vpn purpose id page s s' l
  unfolding replace claim
  replace-Replaced e x v =
      let w = swap_out-Written e in
      let u = unmap f w.0 s in
      let pd = dir_word f s in
      let table = table_of pd s in
      let d = drop_ref pd table u in
      let kept = drop_ref-kept pd table u in
      let same = drop_ref-owner pd table u in
      let loose =
        drop_ref-LooseFrames u {l = l} pd table
          (record {
            lined = Lined-links refl v.lined;
            within = v.within;
            out = v.out;
            pages = v.pages;
            numbers = v.numbers;
          })
          e.table in
      (
        give f pid vpn purpose s d,
        rw w.1 (
            ap (λ o. and_then o (λ s2. some (f, s2)))
              (hook-give f pid vpn purpose s d w.0 kept x same.0 same.1)),
        record {
          queue = claim-IsFrames pid vpn purpose loose;
          given = ground arith;
          for_page = λ c. rw c (put_self d.frames.vpage_num f vpn);
          unmapped = drop_ref-pres pd table (page_word f s) u (ground arith);
          bits =
              drop_ref-bits pd table (page_word f s) u _
                (ap (λ p. p.acc || p.dirty) (put_self s.entries (page_word f s) _));
          hand = claim-hand f pid vpn purpose d.frames ∙ drop_ref-hand pd table u;
          stored =
              subst (Written 8 (first_block id page) ((f + 1024) * page_size) s.mem s.server)
                (sym (ap (λ p. p.server) kept)) w.2;
          checked = refl;
          base = λ i. drop_ref-base pd table i u ∙ unmap-base f w.0 s i;
          pres = λ more i ne.
              let other : (i == page_word f s) ≡ false = ground arith in rw (more, other) refl;
          kept = give-kept f pid vpn purpose s d w.0 kept;
          sem = ap (λ p. p.get_frame_sem) kept;
        },
      )
