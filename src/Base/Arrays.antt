-- ===== src/Base/Arrays.antt =====
-- A C array is a function from the index. A store, memset or memmove that leaves the array's
-- bounds changes the function there, so a theorem that nothing changes past the bound is a
-- statement of memory safety.
use Prim.Native.Nat.{ℕ, ◌+◌, ◌-◌}
use mathlib.Core.Bool.{◌&&◌}
use kronosnet.Base.Tests.{ltb, leb, ◌==◌, if◌then◌else◌}

module _ {ℓ} {A : Type ℓ} where
  -- a[i] = v
  abbrev pub update : (ℕ → A) → ℕ → A → ℕ → A
  update a i v j = if j == i then v else a j

  -- memset(a + start, v, len)
  abbrev pub fill : (ℕ → A) → ℕ → ℕ → A → ℕ → A
  fill a start len v j = if leb start j && ltb j (start + len) then v else a j

  -- memmove(a + to, b + start, len), which for a ≡ b reads the old contents
  abbrev pub move : (ℕ → A) → ℕ → (ℕ → A) → ℕ → ℕ → ℕ → A
  move a to b start len j = if leb to j && ltb j (to + len) then b (start + (j - to)) else a j

  -- for (i = 0; i < n; i++) a[i] = f(a[i])
  abbrev pub map_below : ℕ → (A → A) → (ℕ → A) → ℕ → A
  map_below n f a j = if ltb j n then f (a j) else a j
