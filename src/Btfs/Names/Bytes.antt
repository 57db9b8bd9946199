-- ===== src/Btfs/Names/Bytes.antt =====
-- Numbers and texts in the bytes of a block of names, BasicBTFS/nametree.h.
use basic_btfs.Prelude.{
  ℕ, zero, suc, ◌+◌, ◌≤◌, ◌<◌, ◌≡◌, ◌≢◌, ◌⊎◌, refl, List, [], ◌∷◌, arith, update, length, u32_mod,
}
use basic_btfs.Btfs.NameBlock.{read32, write32, read_bytes, write_bytes, strncpy}

-- Bytes of a text that ends at its zero, as in the name of a `dentry`.
abbrev pub IsText : List ℕ → Type 0
IsText [] = Unit {0}
IsText (x ∷ xs) = (x ≢ 0) × IsText xs

pub strncpy_text : (s : List ℕ) → IsText s → strncpy s ≡ s
unfolding strncpy
strncpy_text [] t = refl
strncpy_text (x ∷ xs) (ne, t) = ground (arith, strncpy_text xs t)

-- Both agree on the bytes from `lo` up to `hi`.
abbrev pub Agree : (ℕ → ℕ) → (ℕ → ℕ) → ℕ → ℕ → Type 0
Agree m m' lo hi = (x : ℕ) → lo ≤ x → x < hi → m' x ≡ m x

pub read32-Agree :
    (m m' : ℕ → ℕ) (o hi : ℕ) → Agree m m' o hi → o + 4 ≤ hi → read32 m' o ≡ read32 m o
unfolding read32
read32-Agree m m' o hi same le = omega (
  arith,
  same o (omega arith) (omega arith),
  same (o + 1) (omega arith) (omega arith),
  same (o + 2) (omega arith) (omega arith),
  same (o + 3) (omega arith) (omega arith),
)

pub read_bytes-Agree :
    (m m' : ℕ → ℕ) (o n hi : ℕ)
    → Agree m m' o hi
    → o + n ≤ hi
    → read_bytes m' o n ≡ read_bytes m o n
unfolding read_bytes
read_bytes-Agree m m' o zero hi same le = refl
read_bytes-Agree m m' o (suc n) hi same le = cc (
  same o (omega arith) (omega arith),
  read_bytes-Agree m m' (o + 1) n hi (λ x l r. same x (omega arith) r) (omega arith),
)

pub read32-write32 : (m : ℕ → ℕ) (o v : ℕ) → v < u32_mod → read32 (write32 m o v) o ≡ v
unfolding read32 write32 update
read32-write32 m o v lt = ground arith

pub write32_at : (m : ℕ → ℕ) (o v x : ℕ) → (x < o) ⊎ (o + 4 ≤ x) → write32 m o v x ≡ m x
unfolding write32 update
write32_at m o v x h = ground arith

pub write_bytes_at :
    (m : ℕ → ℕ) (o : ℕ) (s : List ℕ) (x : ℕ)
    → (x < o) ⊎ (o + length s ≤ x)
    → write_bytes m o s x ≡ m x
unfolding write_bytes update
write_bytes_at m o [] x h = refl
write_bytes_at m o (c ∷ s) x h =
    ground (arith, write_bytes_at (update m o c) (o + 1) s x (ground arith))

pub read_bytes-write_bytes :
    (m : ℕ → ℕ) (o : ℕ) (s : List ℕ) → read_bytes (write_bytes m o s) o (length s) ≡ s
unfolding read_bytes write_bytes update
read_bytes-write_bytes m o [] = refl
read_bytes-write_bytes m o (c ∷ s) = ground (
  arith,
  write_bytes_at (update m o c) (o + 1) s o (ground arith),
  read_bytes-write_bytes (update m o c) (o + 1) s,
)
