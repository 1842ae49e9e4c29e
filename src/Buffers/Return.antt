-- ===== src/Buffers/Return.antt =====
-- getbuf.c and freebuf.c: a buffer that is returned is in its pool again.
use mathlib.Core.Path.{fun_ext}
use cs503_lab.Base.{ℕ, ◌^◌, ◌<◌, ◌≡◌, refl, false, add32, sub32, put, put_self, arith}
use cs503_lab.Config.{ok}
use cs503_lab.Semaphore.{signal}
use cs503_lab.Buffers.{Pools, is_bad_pool, getbuf_rest, freebuf}

put-put_same {ℓ} : {A : Type ℓ} (f : ℕ → A) (i : ℕ) (v : A) → put (put f i v) i (f i) ≡ f
put-put_same f i v = fun_ext λ j. ground arith

sub32-add32 : (b : ℕ) → b < 2 ^ 32 → sub32 (add32 b 4) 4 ≡ b
unfolding sub32 add32
sub32-add32 b lt = omega arith

module _ (s : Pools) (p : ℕ) (fits : s.bpnext p < 2 ^ 32) (known : is_bad_pool s p ≡ false) where
  -- `freebuf` of the buffer that `getbuf` gave out of pool `p` returns OK, and the pools are as they
  -- were before, but for a call of `signal` for the pool's semaphore.
  pub freebuf-getbuf_rest :
      freebuf (getbuf_rest p s).0 (getbuf_rest p s).1
      ≡ (ok, record s { kernel = (signal (s.bpsem p) s.kernel).1 })
  unfolding freebuf getbuf_rest
  freebuf-getbuf_rest =
      rw
        (
          sub32-add32 (s.bpnext p) fits,
          put_self s.word (s.bpnext p) p,
          known,
          put_self s.bpnext p (s.word (s.bpnext p)),
          put-put_same s.word (s.bpnext p) p,
          put-put_same s.bpnext p (s.word (s.bpnext p)),
        )
        refl
