-- ===== src/Kernel.antt =====
-- The bitmap calls of the Linux kernel (linux/bitmap.h), which BasicBTFS/bitmap.h and
-- BasicFATFS/bitmap.h use and which are not in the repository: an interface with its documented
-- behaviour. A bitmap is a function from bit numbers.
use basic_btfs.Prelude.{
  ℕ, zero, suc, ◌+◌, ◌≤◌, ◌<◌, ◌≡◌, refl, ◌≢◌, Bool, true, false, ◌&&◌, arith, ltb, leb, ◌==◌,
  if◌then◌else◌, Bool-cases, inl, inr,
}

abbrev pub Bits : Type 0
Bits = ℕ → Bool

-- `i` is one of the `len` positions from `start` on.
abbrev pub in_range : ℕ → ℕ → ℕ → Bool
in_range start len i = leb start i && ltb i (start + len)

-- All `len` bits from `start` on are clear.
abbrev pub IsClear : Bits → ℕ → ℕ → Type 0
IsClear map start len = (i : ℕ) → in_range start len i ≡ true → map i ≡ false

-- `find_next_zero_area map size start len` is `bitmap_find_next_zero_area` with an align mask 0.
pub record BitmapApi : Type 0 where
  pub find_next_zero_area : Bits → ℕ → ℕ → ℕ → ℕ
  pub set : Bits → ℕ → ℕ → Bits
  pub clear : Bits → ℕ → ℕ → Bits

-- A result below `size` is a clear area inside the map; for a positive length no clear area that
-- starts at or after `start` lies below the result.
pub record IsBitmapApi (api : BitmapApi) : Type 0 where
  pub found :
      (map : Bits) (size start len : ℕ)
      → api.find_next_zero_area map size start len < size
      → (start ≤ api.find_next_zero_area map size start len)
        × (api.find_next_zero_area map size start len + len ≤ size)
        × IsClear map (api.find_next_zero_area map size start len) len
  pub least :
      (map : Bits) (size start len s : ℕ)
      → 0 < len
      → start ≤ s
      → s + len ≤ size
      → IsClear map s len
      → api.find_next_zero_area map size start len ≤ s
  pub set_at :
      (map : Bits) (start len i : ℕ)
      → api.set map start len i ≡ (if in_range start len i then true else map i)
  pub clear_at :
      (map : Bits) (start len i : ℕ)
      → api.clear map start len i ≡ (if in_range start len i then false else map i)

-- A plain implementation: try each start in turn.
unfoldable pub all_clear : Bits → ℕ → ℕ → Bool
all_clear map start zero = true
all_clear map start (suc n) = if map start then false else all_clear map (start + 1) n

unfoldable pub scan : ℕ → Bits → ℕ → ℕ → ℕ → ℕ
scan zero map size len s = size + len
scan (suc fuel) map size len s =
    let rest = scan fuel map size len (s + 1) in
    if leb (s + len) size then (if all_clear map s len then s else rest) else size + len

unfoldable pub plain_api : BitmapApi
unfolding scan all_clear
plain_api = record {
  find_next_zero_area = λ map size start len. scan (size + 1) map size len start;
  set = λ map start len i. if in_range start len i then true else map i;
  clear = λ map start len i. if in_range start len i then false else map i;
}

all_clear-IsClear : (map : Bits) (start n : ℕ) → all_clear map start n ≡ true → IsClear map start n
unfolding all_clear
all_clear-IsClear map start zero h i r = ground arith
all_clear-IsClear map start (suc n) h i r = elim (Bool-cases (i == start)) [
  | inl e ↦ ground arith
  | inr e ↦ ground (arith, all_clear-IsClear map (start + 1) n (ground arith) i)
]

all_clear_of_IsClear :
    (map : Bits) (start n : ℕ) → IsClear map start n → all_clear map start n ≡ true
unfolding all_clear
all_clear_of_IsClear map start zero h = refl
all_clear_of_IsClear map start (suc n) h =
    rw (h start (ground arith)) (all_clear_of_IsClear map (start + 1) n (λ i r. h i (ground arith)))

module _ (map : Bits) (size len : ℕ) where
  scan_found :
      (fuel s : ℕ)
      → scan fuel map size len s < size
      → (s ≤ scan fuel map size len s)
        × (scan fuel map size len s + len ≤ size)
        × IsClear map (scan fuel map size len s) len
  unfolding scan
  scan_found zero s h = absurd (omega arith)
  scan_found (suc fuel) s h = elim (Bool-cases (leb (s + len) size)) [
    | inr e ↦ absurd (ground arith)
    | inl e ↦ elim (Bool-cases (all_clear map s len)) [
      | inl c ↦ rw (e, c) (omega arith, ground arith, all_clear-IsClear map s len c)
      | inr c ↦
          let ih = scan_found fuel (s + 1) (rw (e, c) at h) in
          rw (e, c) (omega (arith, ih.0), ih.1, ih.2)
    ]
  ]

  scan_least :
      (fuel s t : ℕ)
      → size < fuel + s
      → s ≤ t
      → 0 < len
      → t + len ≤ size
      → IsClear map t len
      → scan fuel map size len s ≤ t
  unfolding scan
  scan_least zero s t f st pos fits h = absurd (omega arith)
  scan_least (suc fuel) s t f st pos fits h = elim (Bool-cases (all_clear map s len)) [
    | inl c ↦ ground arith
    | inr c ↦
        let ne : s ≢ t = λ e. cc (all_clear_of_IsClear map t len h) in
        let ih = scan_least fuel (s + 1) t (omega arith) (omega arith) pos fits h in ground arith
  ]

pub plain_api-IsBitmapApi : IsBitmapApi plain_api
unfolding plain_api
plain_api-IsBitmapApi = record {
  found = λ map size start len. scan_found map size len (size + 1) start;
  least = λ map size start len s pos st fits h.
      scan_least map size len (size + 1) start s (omega arith) st pos fits h;
  set_at = λ map start len i. refl;
  clear_at = λ map start len i. refl;
}
