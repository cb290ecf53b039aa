-- ===== src/Fs/Transfer.antt =====
-- The loops of readi and writei, block by block.
use operating_systems_projec.Prelude.{
  ℕ, ◌*◌, ◌/◌, ◌%◌, ◌<◌, ◌≡◌, ◌≢◌, sym, ◌∙◌, ◌==◌, if◌then◌else◌, update, arith,
}
use mathlib.Core.Path.{subst}
use operating_systems_projec.Fs.{Block, bsize, bblock}
use operating_systems_projec.Fs.Inode.{Work, ndirect, maxfile, iblock}
use operating_systems_projec.Fs.Layout.{addr_of, content, IsData, IsFile}
use operating_systems_projec.Fs.Map.{write-used, write-IsDisk}

-- `s` with the contents `w` in block `x`.
abbrev pub with_block : ℕ → Block → Work → Work
with_block x w s = record s { disk = record s.disk { block = update s.disk.block x w } }

module _ (s : Work) (x : ℕ) (w : Block) (f : IsFile s) where
  write-IsData :
      (c : ℕ)
      → ((b : ℕ) → b < s.disk.sb.size → bblock s.disk.sb b ≢ x)
      → IsData s c
      → IsData (with_block x w s) c
  write-IsData c h d = record {
    inside = d.inside;
    taken = ground (arith, write-used x c w s.disk h d.inside, d.taken);
    no_bitmap = d.no_bitmap;
    no_inode = d.no_inode;
  }

  -- A write outside of the bitmap and of the indirect block moves no block of the file.
  pub write-addr_of :
      (bn : ℕ) → s.ip.addrs ndirect ≢ x → addr_of (with_block x w s) bn ≡ addr_of s bn
  unfolding addr_of
  write-addr_of bn n = ground arith

  pub write-IsFile :
      ((b : ℕ) → b < s.disk.sb.size → bblock s.disk.sb b ≢ x)
      → s.ip.addrs ndirect ≢ x
      → IsFile (with_block x w s)
  write-IsFile h n =
      let same = λ (j : ℕ). write-addr_of j n in
      let size : 0 < s.disk.sb.size = omega (arith, f.home.home_inside) in
      record {
        disk = write-IsDisk x w s.disk f.disk h size;
        home = record {
          home_nonzero = f.home.home_nonzero;
          home_used = ground (
            arith,
            write-used x (iblock s.disk.sb s.ip.inum) w s.disk h f.home.home_inside,
            f.home.home_used,
          );
          home_inside = f.home.home_inside;
          home_apart = f.home.home_apart;
        };
        indirect = λ m. write-IsData (s.ip.addrs ndirect) h (f.indirect m);
        apart = λ j i m. ground (arith, same j, f.apart j i);
        blocks = λ j i m.
            subst (IsData (with_block x w s)) (sym (same j))
              (write-IsData (addr_of s j) h (f.blocks j i (λ e. m (same j ∙ e))));
        distinct = λ i j p q. ground (arith, same i, same j, f.distinct i j p q);
      }

-- A write to block `bn` of the file changes the bytes there, and no others.
pub write-content :
    (s : Work) (bn : ℕ) (w : Block) (k : ℕ)
    → IsFile s
    → bn < maxfile
    → addr_of s bn ≢ 0
    → k < maxfile * bsize
    → content (with_block (addr_of s bn) w s) k
      ≡ (if k / bsize == bn then w (k % bsize) else content s k)
write-content s bn w k f h n p =
    let q : k / bsize < maxfile = omega arith in
    ground (
      arith,
      write-addr_of s (addr_of s bn) w f (k / bsize) (λ e. f.apart bn h n (sym e)),
      f.distinct bn (k / bsize) h q n,
    )
