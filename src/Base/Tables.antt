-- ===== src/Base/Tables.antt =====
-- C tables as functions of the index. A table of structs is kept field by field.
use Prim.Native.Nat.{ℕ}
use mathlib.Core.Path.{◌≡◌, fun_ext}
use mathlib.Core.Logic.{◌≢◌}
use native.Mathlib.Omega.{arith}
use cs503_lab.Base.Tests.{◌==◌, if◌then◌else◌}

-- `tab[i] = v`
abbrev pub put {ℓ} : {A : Type ℓ} → (ℕ → A) → ℕ → A → ℕ → A
put f i v j = if j == i then v else f j

pub put_self {ℓ} : {A : Type ℓ} (f : ℕ → A) (i : ℕ) (v : A) → put f i v i ≡ v
put_self f i v = ground arith

pub put_ne {ℓ} : {A : Type ℓ} (f : ℕ → A) (i : ℕ) (v : A) (j : ℕ) → j ≢ i → put f i v j ≡ f j
put_ne f i v j h = ground arith

pub put_same {ℓ} : {A : Type ℓ} (f : ℕ → A) (i : ℕ) → put f i (f i) ≡ f
put_same f i = fun_ext λ j. ground arith
