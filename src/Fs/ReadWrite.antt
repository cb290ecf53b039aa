-- ===== src/Fs/ReadWrite.antt =====
-- readi and writei as wholes: a file is an array of bytes that writei changes and readi reads.
use operating_systems_projec.Prelude.{
  ℕ, zero, suc, ◌+◌, ◌-◌, ◌*◌, ◌/◌, ◌%◌, ◌^◌, ◌≤◌, ◌<◌, ◌≡◌, ◌≢◌, refl, sym, ap, ◌∙◌, ◌⊎◌, inl, inr,
  none, some, ◌==◌, ltb, min, List, [], ◌++◌, if◌then◌else◌, arith, Bool-cases, cells, cells-append,
  cells-shift, length, take, drop, length-drop,
}
use operating_systems_projec.Prelude.Kernel.{ok, panic}
use operating_systems_projec.Fs.{bsize}
use operating_systems_projec.Fs.Inode.{
  Work, Driver, maxfile, t_dev, piece, read_from, paste, write_from, readi,
}
use operating_systems_projec.Fs.Layout.{addr_of, content, IsFile}
use operating_systems_projec.Fs.Bmap.{AlmostFull, bmap_lem, bmap-mapped}
use operating_systems_projec.Fs.Transfer.{with_block, write-addr_of}
use operating_systems_projec.Fs.Writes.{
  Keeps, Keeps-refl, Keeps-trans, Extends-Keeps, write-Keeps, Wrote, Wrote-step,
}

-- The bytes from `off` on have blocks.
abbrev pub Mapped : (off n : ℕ) → Work → Type 0
Mapped off n s = (k : ℕ) → off ≤ k → k < off + n → addr_of s (k / bsize) ≢ 0

read_from_lem :
    (r off n : ℕ) (s : Work)
    → n ≤ r
    → off + n ≤ maxfile * bsize
    → Mapped off n s
    → read_from r off n s ≡ ok (cells (content s) off n) s
unfolding read_from
read_from_lem zero off n s h k m = ground arith
read_from_lem (suc r) off n s h k m = elim (Bool-cases (n == 0)) [
  | inl e ↦ ground arith
  | inr e ↦
      let p = piece off n in
      let a = m off (omega arith) (ground arith) in
      let x = addr_of s (off / bsize) in
      let ih =
        read_from_lem r (off + p) (n - p) s (ground arith) (ground arith)
          (λ i u v. m i (omega arith) (ground arith)) in
      let here : cells (s.disk.block x) (off % bsize) p ≡ cells (content s) off p =
        cells-shift (s.disk.block x) (content s) (off % bsize) off p (λ j q.
          let b : (off + j) / bsize ≡ off / bsize = ground arith in
          let o : (off + j) % bsize ≡ off % bsize + j = ground arith in rw (b, o) (ground arith)) in
      let whole : cells (content s) off n
          ≡ cells (content s) off p ++ cells (content s) (off + p) (n - p) =
        ap (cells (content s) off) (ground arith) ∙ cells-append (content s) off p (n - p) in
      ground (arith, e, bmap-mapped (off / bsize) s (ground arith) a, ih, here, whole)
]

Wrote-nil : (off : ℕ) (xs : List ℕ) (s : Work) → length xs ≡ 0 → IsFile s → Wrote off xs s s
Wrote-nil off xs s e f = record {
  keeps = Keeps-refl s f;
  covered = λ k a b. absurd (omega (arith, e));
  bytes = λ k a. ground (arith, e);
}

-- Blocks of the file that hold no byte of the range are where they were.
abbrev pub Within : (off n : ℕ) → Work → Work → Type 0
Within off n s t =
    (j : ℕ)
    → j < maxfile
    → ((k : ℕ) → off ≤ k → k < off + n → k / bsize ≢ j)
    → addr_of t j ≡ addr_of s j

pub write_from_lem :
    (r off : ℕ) (xs : List ℕ) (s : Work)
    → length xs ≤ r
    → off + length xs ≤ maxfile * bsize
    → IsFile s
    → ((write_from r off xs s ≡ panic)
        × ((t : Work) × Keeps s t × Within off (length xs) s t × AlmostFull t))
      ⊎ ((t : Work) × (write_from r off xs s ≡ ok tt t) × Wrote off xs s t)
unfolding write_from
write_from_lem zero off xs s h k f = inr (s, refl, Wrote-nil off xs s (omega arith) f)
write_from_lem (suc r) off xs s h k f = elim (Bool-cases (length xs == 0)) [
  | inl e ↦ inr (s, ground (arith, e), Wrote-nil off xs s (ground arith) f)
  | inr e ↦
      let m = piece off (length xs) in
      let pos : 0 < length xs = ground arith in
      elim (bmap_lem (off / bsize) s (omega arith) f) [
        | inl (p, full) ↦ inl (ground (arith, e, p), (s, Keeps-refl s f, (λ i a b. refl), full))
        | inr (a, t, p, n, q, x, o) ↦
            let at = addr_of t (off / bsize) in
            let ys = paste (off % bsize) (take m xs) (t.disk.block at) in
            let v = with_block at ys t in
            let n' : at ≢ 0 = ground (arith, q, n) in
            let j = write-Keeps t (off / bsize) ys x.file (omega arith) n' in
            elim (write_from_lem r (off + m) (drop m xs) v (omega (arith, length-drop m xs))
              (omega (arith, length-drop m xs)) j.file) [
                | inl (z, (u, l, y, full)) ↦ inl (
                  ground (arith, e, p, q, z),
                  (
                    u,
                    Keeps-trans s t u (Extends-Keeps s t x) (Keeps-trans t v u j l),
                    λ i b c.
                        y i b (λ k h g. c k (omega arith) (omega (arith, length-drop m xs)))
                        ∙ write-addr_of t at ys x.file i
                            (λ w. x.file.apart (off / bsize) (omega arith) n' (sym w))
                        ∙ o i b (λ w. c off (omega arith) (omega arith) (sym w)),
                    full,
                  ),
                )
                | inr (u, z, w) ↦ inr (
                  u,
                  ground (arith, e, p, q, z),
                  Wrote-step off m xs s t u refl pos k x.file x n' w,
                )
              ]
      ]
]

-- A file that readi can read: a file whose blocks are all there.
pub record IsWhole (s : Work) : Type 0 where
  pub file : IsFile s
  pub limit : s.ip.size ≤ maxfile * bsize
  pub mapped : Mapped 0 s.ip.size s

-- readi of an inode that is no device, of a range below 2 ^ 32: it fails if the range begins behind
-- the end of the file, and else returns the number of its bytes that the file has, and stores them.
-- It changes nothing, and does not panic.
pub readi_lem :
    (devsw : Driver ℕ) (off n : ℕ) (s : Work)
    → IsWhole s
    → s.ip.typ ≢ t_dev
    → off + n < 2 ^ 32
    → readi devsw off n s
      ≡ ok
          (if ltb s.ip.size off
            then (none, [])
            else (some (min n (s.ip.size - off)), cells (content s) off (min n (s.ip.size - off))))
          s
unfolding readi
readi_lem devsw off n s v d h =
    let k = if ltb s.ip.size (off + n) then s.ip.size - off else n in
    elim (Bool-cases (ltb s.ip.size off)) [
      | inl e ↦ ground (arith, e, d)
      | inr e ↦
          let same : k ≡ min n (s.ip.size - off) = ground arith in
          let r =
            read_from_lem k off k s (omega arith) (ground (arith, v.limit))
              (λ i a b. v.mapped i (omega arith) (ground arith)) in
          ground (arith, e, d, r, same)
    ]
