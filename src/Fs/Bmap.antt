-- ===== src/Fs/Bmap.antt =====
-- bmap: every block of a file within the size limit gets an address, and no byte of the file changes.
use operating_systems_projec.Prelude.{
  ℕ, ◌+◌, ◌-◌, ◌*◌, ◌/◌, ◌%◌, ◌<◌, ◌≡◌, ◌≢◌, refl, sym, ap, ◌∙◌, ◌⊎◌, inl, inr, ◌==◌, ltb, update,
  arith, Bool-cases,
}
use mathlib.Core.Path.{subst}
use operating_systems_projec.Prelude.Kernel.{Outcome, ok, panic, ◌>>=◌}
use operating_systems_projec.Fs.{Block, Disk, bsize, bblock}
use operating_systems_projec.Fs.Bitmap.{used, IsDisk, Allocates, balloc_lem}
use operating_systems_projec.Fs.Words.{get_word, put_word, get_word-zero}
use operating_systems_projec.Fs.Inode.{Work, ndirect, nindirect, maxfile, slot, entry, bmap}
use operating_systems_projec.Fs.Layout.{
  addr_of, content, IsData, IsFile, Takes, Fills, Fills-content, Fills-IsFile, Takes-IsData,
  Takes-new, Takes-IsHome,
}
use operating_systems_projec.Fs.Map.{Full, alloc_Takes, slot_lem, kept, direct-Fills, entry-Fills}

-- Block `c`, which is not 0, is the indirect block of the file or one of its blocks.
abbrev pub HasBlock : Work → ℕ → Type 0
HasBlock s c =
    (c ≢ 0) × ((s.ip.addrs ndirect ≡ c) ⊎ ((bn : ℕ) × (bn < maxfile) × (addr_of s bn ≡ c)))

-- A file that keeps its blocks has them.
pub HasBlock-kept :
    (s t : Work) (c : ℕ)
    → (s.ip.addrs ndirect ≢ 0 → t.ip.addrs ndirect ≡ s.ip.addrs ndirect)
    → ((bn : ℕ) → bn < maxfile → addr_of s bn ≢ 0 → addr_of t bn ≡ addr_of s bn)
    → HasBlock s c
    → HasBlock t c
HasBlock-kept s t c i m (n, inl e) = (n, inl (i (λ z. n (sym e ∙ z)) ∙ e))
HasBlock-kept s t c i m (n, inr (bn, h, e)) = (n, inr (bn, h, m bn h (λ z. n (sym e ∙ z)) ∙ e))

-- From `s` to `t` the file may get blocks, but no byte of it changes, and no other block that was in
-- use does, but those of the bitmap.
pub record Extends (s t : Work) : Type 0 where
  pub file : IsFile t
  pub same_sb : t.disk.sb ≡ s.disk.sb
  pub same_ip : t.ip ≡ record s.ip { addrs = t.ip.addrs }
  pub bytes : (k : ℕ) → k < maxfile * bsize → content t k ≡ content s k
  pub mapped : (bn : ℕ) → bn < maxfile → addr_of s bn ≢ 0 → addr_of t bn ≡ addr_of s bn
  pub indirect : s.ip.addrs ndirect ≢ 0 → t.ip.addrs ndirect ≡ s.ip.addrs ndirect
  pub new : (c : ℕ) → c < s.disk.sb.size → used s.disk c ≡ 0 → used t.disk c ≢ 0 → HasBlock t c
  pub other_blocks :
      (c : ℕ)
      → c < s.disk.sb.size
      → used s.disk c ≢ 0
      → ((bn : ℕ) → bn < maxfile → addr_of s bn ≢ c)
      → (bn : ℕ) → bn < maxfile
      → addr_of t bn ≢ c
  pub still_used : (c : ℕ) → c < s.disk.sb.size → used s.disk c ≢ 0 → used t.disk c ≢ 0
  pub other_indirect :
      (c : ℕ)
      → c < s.disk.sb.size
      → used s.disk c ≢ 0
      → s.ip.addrs ndirect ≢ c
      → t.ip.addrs ndirect ≢ c
  pub others :
      (c : ℕ)
      → c < s.disk.sb.size
      → used s.disk c ≢ 0
      → s.ip.addrs ndirect ≢ c
      → ((b : ℕ) → b < s.disk.sb.size → bblock s.disk.sb b ≢ c)
      → t.disk.block c ≡ s.disk.block c

pub Extends-refl : (s : Work) → IsFile s → Extends s s
Extends-refl s f = record {
  file = f;
  same_sb = refl;
  same_ip = refl;
  bytes = λ k h. refl;
  mapped = λ bn h n. refl;
  indirect = λ n. refl;
  new = λ c h u n. absurd (n u);
  other_blocks = λ c h u n. n;
  still_used = λ c h u. u;
  other_indirect = λ c h u n. n;
  others = λ c h u n b. refl;
}

pub Extends-trans : (s t u : Work) → Extends s t → Extends t u → Extends s u
Extends-trans s t u e f =
    let inside : (c : ℕ) → c < s.disk.sb.size → c < t.disk.sb.size =
      λ c h. ground (arith, e.same_sb) in
    record {
      file = f.file;
      same_sb = f.same_sb ∙ e.same_sb;
      same_ip = ground (arith, f.same_ip, e.same_ip);
      bytes = λ k h. f.bytes k h ∙ e.bytes k h;
      mapped = λ bn h n. ground (arith, e.mapped bn h n, f.mapped bn h);
      indirect = λ n. f.indirect (λ z. n (sym (e.indirect n) ∙ z)) ∙ e.indirect n;
      new = λ c h n m. elim (Bool-cases (used t.disk c == 0)) [
        | inl z ↦ f.new c (inside c h) (ground arith) m
        | inr z ↦ HasBlock-kept t u c f.indirect f.mapped (e.new c h n (ground arith))
      ];
      other_blocks =
          λ c h u n. f.other_blocks c (inside c h) (e.still_used c h u) (e.other_blocks c h u n);
      still_used = λ c h n. f.still_used c (inside c h) (e.still_used c h n);
      other_indirect = λ c h n m.
          f.other_indirect c (inside c h) (e.still_used c h n) (e.other_indirect c h n m);
      others = λ c h n m r.
          f.others c (inside c h) (e.still_used c h n) (e.other_indirect c h n m)
            (λ b q. ground (arith, e.same_sb, r b))
          ∙ e.others c h n m r;
    }

Takes-Extends :
    (a : ℕ) (s t : Work)
    → Takes a s t
    → IsFile t
    → ((k : ℕ) → k < maxfile * bsize → content t k ≡ content s k)
    → ((c : ℕ)
        → c < s.disk.sb.size
        → used s.disk c ≢ 0
        → s.ip.addrs ndirect ≢ c
        → t.ip.addrs ndirect ≢ c)
    → ((bn : ℕ) → bn < maxfile → addr_of s bn ≢ 0 → addr_of t bn ≡ addr_of s bn)
    → ((bn : ℕ) → bn < maxfile → (addr_of t bn ≡ addr_of s bn) ⊎ (addr_of t bn ≡ a))
    → (s.ip.addrs ndirect ≢ 0 → t.ip.addrs ndirect ≡ s.ip.addrs ndirect)
    → HasBlock t a
    → Extends s t
Takes-Extends a s t k f b i m o kept own = record {
  file = f;
  same_sb = k.same_sb;
  same_ip = k.same_ip;
  bytes = b;
  mapped = m;
  indirect = kept;
  new = λ c h u n. let e : a ≡ c = ground (arith, k.now_used c h) in subst (HasBlock t) e own;
  other_blocks = λ c h u n bn p. elim (o bn p) [
    | inl e ↦ λ q. n bn p (sym e ∙ q)
    | inr e ↦ λ q. u (subst (λ x. used s.disk x ≡ 0) (sym e ∙ q) k.was_free)
  ];
  still_used = λ c h u. ground (arith, k.now_used c);
  other_indirect = i;
  others = λ c h u n r. k.others c (λ q. u (subst (λ x. used s.disk x ≡ 0) q k.was_free)) n r;
}

pub Fills-Extends : (bn a : ℕ) (s t : Work) → IsFile s → Fills bn a s t → Extends s t
Fills-Extends bn a s t f g =
    Takes-Extends a s t g.takes (Fills-IsFile bn a s t f g) (λ k h. Fills-content bn a s t k f g h)
      (λ c h u n. ground (arith, g.same_indirect)) (λ j h n. ground (arith, g.addr j h, g.hole))
      (λ j h. ground (arith, g.addr j h)) (λ n. g.same_indirect)
      (g.takes.nonzero, inr (bn, g.small, ground (arith, g.addr bn g.small)))

-- A new indirect block comes in with zeros: no block of the file gets another address.
indirect-addr_of :
    (b : ℕ) (s : Work) (d : Disk)
    → s.ip.addrs ndirect ≡ 0
    → Allocates b s.disk d
    → (j : ℕ) → j < maxfile
    → addr_of (record { disk = d; ip = record s.ip { addrs = update s.ip.addrs ndirect b } }) j
      ≡ addr_of s j
unfolding addr_of
indirect-addr_of b s d z a j h =
    ground (arith, get_word-zero (d.block b) (j - ndirect) a.zero_block)

-- The indirect block comes in with zeros, so the file's blocks are those that it had.
indirect-Extends :
    (b : ℕ) (s : Work) (d : Disk)
    → IsFile s
    → s.ip.addrs ndirect ≡ 0
    → Allocates b s.disk d
    → IsDisk d
    → b ≢ 0
    → Extends s (record { disk = d; ip = record s.ip { addrs = update s.ip.addrs ndirect b } })
indirect-Extends b s d f z a v n =
    let t : Work = record { disk = d; ip = record s.ip { addrs = update s.ip.addrs ndirect b } } in
    let k = alloc_Takes b s d (update s.ip.addrs ndirect b) a v n in
    let same = indirect-addr_of b s d z a in
    let block = λ (j : ℕ) (h : j < maxfile) (m : addr_of s j ≢ 0).
      kept b (addr_of s j) s d a (f.blocks j h m) in
    Takes-Extends b s t k
      (record {
        disk = v;
        home = Takes-IsHome b s t f.home k;
        indirect = λ m. Takes-new b s t f k;
        apart = λ j h m q.
            let w : addr_of s j ≢ 0 = λ y. m (same j h ∙ y) in
            (f.blocks j h w).taken
              (subst (λ x. used s.disk x ≡ 0) (sym (sym (same j h) ∙ q)) a.was_free);
        blocks = λ j h m.
            let w : addr_of s j ≢ 0 = λ y. m (same j h ∙ y) in
            subst (IsData t) (sym (same j h)) (Takes-IsData b (addr_of s j) s t k (f.blocks j h w));
        distinct = λ i j p q. ground (arith, same i p, same j q, f.distinct i j p q);
      })
      (λ j h. ground (
        arith,
        same (j / bsize),
        λ (m : addr_of s (j / bsize) ≢ 0).
            ap (λ (w : Block). w (j % bsize)) (block (j / bsize) (omega arith) m),
      ))
      (λ c h u m q. u (subst (λ x. used s.disk x ≡ 0) q a.was_free)) (λ j h m. same j h)
      (λ j h. inl (same j h)) (λ m. absurd (m z)) (n, inl (ground arith))

-- No block of the file but `bn` gets another address.
abbrev pub Only : ℕ → Work → Work → Type 0
Only bn s t = (j : ℕ) → j < maxfile → j ≢ bn → addr_of t j ≡ addr_of s j

abbrev Entry : (bn : ℕ) → Work → Outcome ⊥ Work ℕ → Type 0
Entry bn s o =
    ((o ≡ panic) × Full s)
    ⊎ ((a : ℕ) × (t : Work) × (o ≡ ok a t)
        × (a ≢ 0)
        × (addr_of t bn ≡ a)
        × Extends s t
        × Only bn s t)

entry_lem :
    (bn : ℕ) (s : Work)
    → bn < nindirect
    → IsFile s
    → s.ip.addrs ndirect ≢ 0
    → Entry (bn + ndirect) s (entry (s.ip.addrs ndirect) bn s)
unfolding entry
entry_lem bn s h f i =
    let ind = s.ip.addrs ndirect in
    let here : addr_of s (bn + ndirect) ≡ get_word (s.disk.block ind) bn =
      unfold addr_of in ground (arith, i) in
    elim (Bool-cases (get_word (s.disk.block ind) bn == 0)) [
      | inr e ↦ inr (
        get_word (s.disk.block ind) bn,
        s,
        simp e refl,
        ground arith,
        here,
        Extends-refl s f,
        λ j p q. refl,
      )
      | inl e ↦ elim (balloc_lem s.disk f.disk) [
        | inl (p, full) ↦ inl (ground (arith, e, p), full)
        | inr (b, d, p, n, a, v) ↦
            let g = entry-Fills bn b s d h f i (ground arith) a v n in
            inr (
              b,
              record s {
                disk = record d { block = update d.block ind (put_word bn b (d.block ind)) };
              },
              ground (arith, e, p),
              n,
              ground (arith, g.addr (bn + ndirect) (omega arith)),
              Fills-Extends (bn + ndirect) b s _ f g,
              λ j i q. ground (arith, g.addr j i),
            )
      ]
    ]

direct_lem : (k : ℕ) (s : Work) → k < ndirect → IsFile s → Entry k s (slot k s)
direct_lem k s h f = elim (slot_lem k s f) [
  | inl p ↦ inl p
  | inr (inl (n, e)) ↦
      inr (s.ip.addrs k, s, e, n, (unfold addr_of in ground arith), Extends-refl s f, λ j p q. refl)
  | inr (inr (b, d, z, e, a, v, n)) ↦
      let g = direct-Fills k b s d h f z a v n in
      inr (
        b,
        record { disk = d; ip = record s.ip { addrs = update s.ip.addrs k b } },
        e,
        n,
        ground (arith, g.addr k (omega arith)),
        Fills-Extends k b s _ f g,
        λ j i q. ground (arith, g.addr j i),
      )
]

-- At most one block of the disk is free.
abbrev pub AlmostFull : Work → Type 0
AlmostFull s =
    (b c : ℕ)
    → b < s.disk.sb.size
    → c < s.disk.sb.size
    → used s.disk b ≡ 0
    → used s.disk c ≡ 0
    → b ≡ c

abbrev Maps : (bn : ℕ) → Work → Outcome ⊥ Work ℕ → Type 0
Maps bn s o =
    ((o ≡ panic) × AlmostFull s)
    ⊎ ((a : ℕ) × (t : Work) × (o ≡ ok a t)
        × (a ≢ 0)
        × (addr_of t bn ≡ a)
        × Extends s t
        × Only bn s t)

Entry-Maps : (bn : ℕ) (s : Work) (o : Outcome ⊥ Work ℕ) → Entry bn s o → Maps bn s o
Entry-Maps bn s o (inl (p, full)) = inl (p, λ b c h i u v. absurd (full b h u))
Entry-Maps bn s o (inr m) = inr m

indirect_lem :
    (bn : ℕ) (s : Work)
    → bn < nindirect
    → IsFile s
    → Maps (bn + ndirect) s ((slot ndirect >>= λ ind. entry ind bn) s)
indirect_lem bn s h f = elim (slot_lem ndirect s f) [
  | inl (p, full) ↦ inl (ground (arith, p), λ b c i j u v. absurd (full b i u))
  | inr (inl (n, e)) ↦
      Entry-Maps (bn + ndirect) s _
        (subst (Entry (bn + ndirect) s) (ground (arith, e)) (entry_lem bn s h f n))
  | inr (inr (b, d, z, e, a, v, n)) ↦
      let t : Work = record {
        disk = d;
        ip = record s.ip { addrs = update s.ip.addrs ndirect b };
      } in
      let x = indirect-Extends b s d f z a v n in
      elim (entry_lem bn t h x.file (ground arith)) [
        | inl (p, full) ↦ inl (
          ground (arith, e, p),
          λ c k i j u w. ground (arith, full c, full k, a.now_used c i, a.now_used k j, a.same_sb),
        )
        | inr (c, u, p, m, q, y, o) ↦ inr (
          c,
          u,
          ground (arith, e, p),
          m,
          q,
          Extends-trans s t u x y,
          λ j i r. o j i r ∙ indirect-addr_of b s d z a j i,
        )
      ]
]

-- bmap of a block within the size limit, on a file whose blocks are data blocks of its own: it panics
-- only if no block of the disk is free, or the one that is does not do for the indirect block and
-- the entry. Otherwise it returns a block, and not 0, that from then on is the file's block `bn`, and the
-- file's other blocks are where they were. No
-- byte of the file changes, a block that is new to it reads as zeros, and its blocks are still its own.
pub bmap_lem :
    (bn : ℕ) (s : Work)
    → bn < maxfile
    → IsFile s
    → ((bmap bn s ≡ panic) × AlmostFull s)
      ⊎ ((a : ℕ) × (t : Work) × (bmap bn s ≡ ok a t)
          × (a ≢ 0)
          × (addr_of t bn ≡ a)
          × Extends s t
          × Only bn s t)
unfolding bmap
bmap_lem bn s h f = elim (Bool-cases (ltb bn ndirect)) [
  | inl e ↦ subst (Maps bn s) (simp e refl) (Entry-Maps bn s _ (direct_lem bn s (ground arith) f))
  | inr e ↦
      let i : bn - ndirect < nindirect = ground arith in
      let j : bn - ndirect + ndirect ≡ bn = ground arith in
      subst (Maps bn s) (ground (arith, e, i)) (
        subst (λ n. Maps n s ((slot ndirect >>= λ ind. entry ind (bn - ndirect)) s)) j
          (indirect_lem (bn - ndirect) s i f))
]

-- A block that the file has is found, and nothing is allocated.
pub bmap-mapped :
    (bn : ℕ) (s : Work) → bn < maxfile → addr_of s bn ≢ 0 → bmap bn s ≡ ok (addr_of s bn) s
unfolding bmap slot entry addr_of
bmap-mapped bn s h n = ground arith
