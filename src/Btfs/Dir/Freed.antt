-- ===== src/Btfs/Dir/Freed.antt =====
-- Blocks that become free, one after the other, as the releases of BasicBTFS/dir.c leave them.
use basic_btfs.Prelude.{ℕ, ◌<◌, ◌≡◌, refl, ◌∙◌, inl, inr, false, ◌⊎◌, arith, ne→==, u32_mod}
use basic_btfs.Kernel.{BitmapApi, IsBitmapApi}
use basic_btfs.Btfs.Bitmap.{put_blocks}
use basic_btfs.Btfs.File.Free.{put_blocks_at, put_blocks-s_nblocks}
use basic_btfs.Btfs.Disk.{Disk, success, done}
use basic_btfs.Btfs.Dir.{put_block}

-- From `d` to `d'` the blocks with `F` have become free, and nothing but the superblock information
-- is another.
pub record IsFreed (d d' : Disk) (F : ℕ → Type 0) : Type 0 where
  pub node : d'.node ≡ d.node
  pub names : d'.names ≡ d.names
  pub cached : d'.cached ≡ d.cached
  pub dir_cache : d'.dir_cache ≡ d.dir_cache
  pub size : d'.sbi.s_nblocks ≡ d.sbi.s_nblocks
  pub freed : (x : ℕ) → F x → d'.sbi.s_bfree_bitmap x ≡ false
  pub kept : (x : ℕ) → (F x → ⊥) → d'.sbi.s_bfree_bitmap x ≡ d.sbi.s_bfree_bitmap x
  pub clear : (x : ℕ) → d.sbi.s_bfree_bitmap x ≡ false → d'.sbi.s_bfree_bitmap x ≡ false

pub none-IsFreed : (d : Disk) (F : ℕ → Type 0) → ((x : ℕ) → F x → ⊥) → IsFreed d d F
none-IsFreed d F no_block = record {
  node = refl;
  names = refl;
  cached = refl;
  dir_cache = refl;
  size = refl;
  freed = λ x f. absurd (no_block x f);
  kept = λ x _. refl;
  clear = λ x h. h;
}

-- Two calls in a row.
pub both-IsFreed :
    (d d1 d2 : Disk) (F G H : ℕ → Type 0)
    → IsFreed d d1 F
    → IsFreed d1 d2 G
    → ((x : ℕ) → H x → F x ⊎ G x)
    → ((x : ℕ) → F x → H x)
    → ((x : ℕ) → G x → H x)
    → IsFreed d d2 H
both-IsFreed d d1 d2 F G H one two split left right = record {
  node = two.node ∙ one.node;
  names = two.names ∙ one.names;
  cached = two.cached ∙ one.cached;
  dir_cache = two.dir_cache ∙ one.dir_cache;
  size = two.size ∙ one.size;
  freed = λ x h. elim (split x h) [ inl f ↦ two.clear x (one.freed x f) | inr g ↦ two.freed x g ];
  kept = λ x h. two.kept x (λ g. h (right x g)) ∙ one.kept x (λ f. h (left x f));
  clear = λ x h. two.clear x (one.clear x h);
}

pub same-IsFreed :
    (d d' : Disk) (F G : ℕ → Type 0)
    → ((x : ℕ) → G x → F x)
    → ((x : ℕ) → F x → G x)
    → IsFreed d d' F
    → IsFreed d d' G
same-IsFreed d d' F G to from is = record {
  node = is.node;
  names = is.names;
  cached = is.cached;
  dir_cache = is.dir_cache;
  size = is.size;
  freed = λ x g. is.freed x (to x g);
  kept = λ x no_g. is.kept x (λ f. no_g (from x f));
  clear = is.clear;
}

module _ (api : BitmapApi) (law : IsBitmapApi api) where
  pub put_block-IsFreed :
      (bno : ℕ) (d : Disk)
      → bno < d.sbi.s_nblocks
      → d.sbi.s_nblocks < u32_mod
      → (d' : Disk) × (put_block api bno d ≡ done success d') × IsFreed d d' (λ x. x ≡ bno)
  unfolding put_block
  put_block-IsFreed bno d lt small = (
    record d { sbi = put_blocks api d.sbi bno 1 },
    refl,
    record {
      node = refl;
      names = refl;
      cached = refl;
      dir_cache = refl;
      size = put_blocks-s_nblocks api law d.sbi bno;
      freed = λ x e. ground (arith, put_blocks_at api law d.sbi bno x lt small);
      kept = λ x ne. ground (arith, put_blocks_at api law d.sbi bno x lt small, ne→== x bno ne);
      clear = λ x h. ground (arith, put_blocks_at api law d.sbi bno x lt small);
    },
  )
