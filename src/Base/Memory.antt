-- ===== src/Base/Memory.antt =====
-- Byte-addressed memory: what the C code reads and writes through pointers.
use Prim.Native.Nat.{ℕ, zero, suc, ◌+◌, ◌≤◌, ◌<◌}
use mathlib.Core.Path.{◌≡◌, refl, ap, ap₂}
use mathlib.Core.Logic.{◌⊎◌}
use mathlib.Core.List.{List, [], ◌∷◌, ◌++◌}
use native.Mathlib.Omega.{arith}
use pg_tde.Base.Tests.{◌==◌, if◌then◌else◌}
use pg_tde.Base.Lists.{length}

abbrev pub Ptr : Type 0
Ptr = ℕ

abbrev pub Mem : Type 0
Mem = Ptr → ℕ

-- `*p = v`
unfoldable pub store : Mem → Ptr → ℕ → Mem
store m p v a = if a == p then v else m a

-- The `n` bytes from `a` on.
abbrev pub bytes_at : Mem → Ptr → ℕ → List ℕ
bytes_at m a zero = []
bytes_at m a (suc n) = m a ∷ bytes_at m (a + 1) n

-- `a` is outside `[p, p + n)`.
abbrev pub Outside : Ptr → ℕ → Ptr → Type 0
Outside p n a = (a < p) ⊎ (p + n ≤ a)

pub length-bytes_at : (m : Mem) (a n : ℕ) → length (bytes_at m a n) ≡ n
length-bytes_at m a zero = refl
length-bytes_at m a (suc n) = ap suc (length-bytes_at m (a + 1) n)

pub bytes_at-add :
    (m : Mem) (a n j k : ℕ) → n ≡ j + k → bytes_at m a n ≡ bytes_at m a j ++ bytes_at m (a + j) k
bytes_at-add m a n zero k e =
    let e' : n ≡ k = omega arith in let z : a + 0 ≡ a = omega arith in rw (e', z)
bytes_at-add m a n (suc j) k e =
    let e' : n ≡ suc (j + k) = omega arith in
    let next : a + suc j ≡ a + 1 + j = omega arith in
    rw (e', next) (ap (λ r. m a ∷ r) (bytes_at-add m (a + 1) (j + k) j k refl))

pub bytes_at-ext :
    (m m' : Mem) (a a' n : ℕ)
    → ((i : ℕ) → i < n → m (a + i) ≡ m' (a' + i))
    → bytes_at m a n ≡ bytes_at m' a' n
bytes_at-ext m m' a a' zero h = refl
bytes_at-ext m m' a a' (suc n) h =
    ap₂ ◌∷◌ (ground (arith, h 0))
      (bytes_at-ext m m' (a + 1) (a' + 1) n (λ i p. ground (arith, h (i + 1))))
