-- ===== src/Fs/Update.antt =====
-- iupdate: the inode on disk against the inode in memory, and the files that it leaves alone.
use operating_systems_projec.Prelude.{
  ℕ, ◌+◌, ◌-◌, ◌*◌, ◌/◌, ◌%◌, ◌<◌, ◌≡◌, ◌≢◌, refl, sym, ap, ◌∙◌, true, false, ◌==◌, ltb, leb,
  lt→ltb, arith,
}
use operating_systems_projec.Prelude.Kernel.{ok}
use operating_systems_projec.Fs.{Block, bsize}
use operating_systems_projec.Fs.Words.{byte_of, get_short, get_uint, get-byte_of}
use operating_systems_projec.Fs.Inode.{
  Inode, Work, ndirect, maxfile, iblock, dinode_at, dinode_byte, write_dinode, read_dinode, iupdate,
  iload,
}
use operating_systems_projec.Fs.Layout.{addr_of, content, IsFile}
use operating_systems_projec.Fs.Transfer.{with_block, write-IsFile, write-addr_of}

-- `s` behind iupdate.
abbrev pub updated : Work → Work
updated s =
    let home = iblock s.disk.sb s.ip.inum in
    with_block home (write_dinode s.ip (s.disk.block home)) s

pub iupdate-updated : (s : Work) → iupdate s ≡ ok tt (updated s)
unfolding iupdate
iupdate-updated s = refl

module _ (s : Work) (f : IsFile s) where
  home-ne-indirect : s.ip.addrs ndirect ≢ iblock s.disk.sb s.ip.inum
  home-ne-indirect = λ e. (f.indirect (λ z. f.home.home_nonzero (sym e ∙ z))).no_inode (sym e)

  pub updated-IsFile : IsFile (updated s)
  updated-IsFile =
      write-IsFile s (iblock s.disk.sb s.ip.inum) _ f f.home.home_apart home-ne-indirect

  pub updated-addr_of : (bn : ℕ) → addr_of (updated s) bn ≡ addr_of s bn
  updated-addr_of bn = write-addr_of s (iblock s.disk.sb s.ip.inum) _ f bn home-ne-indirect

  -- The inode's own block holds no byte of the file.
  pub updated-content : (k : ℕ) → k < maxfile * bsize → content (updated s) k ≡ content s k
  updated-content k h = ground (
    arith,
    updated-addr_of (k / bsize),
    λ (n : addr_of s (k / bsize) ≢ 0). (f.blocks (k / bsize) (omega arith) n).no_inode,
  )

-- The fields of `ip` fit the fields of a `struct dinode`.
pub record Fits (ip : Inode) : Type 0 where
  pub typ : ip.typ < 65536
  pub major : ip.major < 65536
  pub minor : ip.minor < 65536
  pub nlink : ip.nlink < 65536
  pub size : ip.size < 4294967296
  pub addrs : (i : ℕ) → i < 13 → ip.addrs i < 4294967296

-- What iupdate writes for byte `j` of the `struct dinode`.
write_dinode-at :
    (ip : Inode) (w : Block) (j : ℕ)
    → j < 64
    → write_dinode ip w (dinode_at ip.inum + j) ≡ dinode_byte ip j
unfolding write_dinode
write_dinode-at ip w j h =
    let back : dinode_at ip.inum + j - dinode_at ip.inum ≡ j = omega arith in
    let a : leb (dinode_at ip.inum) (dinode_at ip.inum + j) ≡ true = ground arith in
    let b : ltb (dinode_at ip.inum + j) (dinode_at ip.inum + 64) ≡ true = ground arith in
    rw (a, b, back)

module _ (ip : Inode) (w : Block) (x : Fits ip) where
  get_short-write_dinode :
      (j v : ℕ)
      → j < 63
      → v < 65536
      → dinode_byte ip j ≡ v % 256
      → dinode_byte ip (j + 1) ≡ v / 256 % 256
      → get_short (write_dinode ip w) (dinode_at ip.inum + j) ≡ v
  get_short-write_dinode j v h k a b =
      let e : dinode_at ip.inum + j + 1 ≡ dinode_at ip.inum + (j + 1) = omega arith in
      rw (e, write_dinode-at ip w j (omega arith), write_dinode-at ip w (j + 1) (omega arith), a, b)
        (omega arith)

  get_uint-write_dinode :
      (j v : ℕ)
      → j < 61
      → v < 4294967296
      → dinode_byte ip j ≡ byte_of v 0
      → dinode_byte ip (j + 1) ≡ byte_of v 1
      → dinode_byte ip (j + 2) ≡ byte_of v 2
      → dinode_byte ip (j + 3) ≡ byte_of v 3
      → get_uint (write_dinode ip w) (dinode_at ip.inum + j) ≡ v
  get_uint-write_dinode j v h k a b c d =
      let at = dinode_at ip.inum in
      let e : at + j + 1 ≡ at + (j + 1) = omega arith in
      let f : at + j + 2 ≡ at + (j + 2) = omega arith in
      let g : at + j + 3 ≡ at + (j + 3) = omega arith in
      rw
        (
          e,
          f,
          g,
          write_dinode-at ip w j (omega arith),
          write_dinode-at ip w (j + 1) (omega arith),
          write_dinode-at ip w (j + 2) (omega arith),
          write_dinode-at ip w (j + 3) (omega arith),
          a,
          b,
          c,
          d,
        )
        (get-byte_of v k)

  dinode_byte-addrs :
      (i k : ℕ) → i < 13 → k < 4 → dinode_byte ip (12 + i * 4 + k) ≡ byte_of (ip.addrs i) k
  unfolding dinode_byte
  dinode_byte-addrs i k h l =
      let e : (12 + i * 4 + k - 12) / 4 ≡ i = omega arith in
      let f : (12 + i * 4 + k) % 4 ≡ k = omega arith in
      let n : (j : ℕ) → j < 13 → ltb (12 + i * 4 + k) j ≡ false = λ j q. ground arith in
      rw (e, f) (ground arith)

-- Two inodes agree in the fields of a `struct dinode`.
pub record SameDinode (ip jp : Inode) : Type 0 where
  pub typ : ip.typ ≡ jp.typ
  pub major : ip.major ≡ jp.major
  pub minor : ip.minor ≡ jp.minor
  pub nlink : ip.nlink ≡ jp.nlink
  pub size : ip.size ≡ jp.size
  pub addrs : (i : ℕ) → i < 13 → ip.addrs i ≡ jp.addrs i

read-write_dinode :
    (ip jp : Inode) (w : Block)
    → Fits ip
    → jp.inum ≡ ip.inum
    → SameDinode (read_dinode (write_dinode ip w) jp) ip
unfolding read_dinode
read-write_dinode ip jp w x e =
    let at = dinode_at ip.inum in
    let v = write_dinode ip w in
    let head : at + 0 ≡ at = omega arith in
    record {
      typ =
          rw (e, ← head)
            (get_short-write_dinode ip w x 0 ip.typ (omega arith) x.typ (unfold dinode_byte in refl)
              (unfold dinode_byte in refl));
      major = rw e (
          get_short-write_dinode ip w x 2 ip.major (omega arith) x.major
            (unfold dinode_byte in refl) (unfold dinode_byte in refl));
      minor = rw e (
          get_short-write_dinode ip w x 4 ip.minor (omega arith) x.minor
            (unfold dinode_byte in refl) (unfold dinode_byte in refl));
      nlink = rw e (
          get_short-write_dinode ip w x 6 ip.nlink (omega arith) x.nlink
            (unfold dinode_byte in refl) (unfold dinode_byte in refl));
      size = rw e (
          get_uint-write_dinode ip w x 8 ip.size (omega arith) x.size (unfold dinode_byte in refl)
            (unfold dinode_byte in refl) (unfold dinode_byte in refl) (unfold dinode_byte in refl));
      addrs = λ i h.
          let at_slot : at + 12 + i * 4 ≡ at + (12 + i * 4) = omega arith in
          let byte = λ (k : ℕ) (l : k < 4). dinode_byte-addrs ip w x i k h l in
          let first : 12 + i * 4 + 0 ≡ 12 + i * 4 = omega arith in
          rw (e, lt→ltb i 13 h, at_slot)
            (get_uint-write_dinode ip w x (12 + i * 4) (ip.addrs i) (omega arith) (x.addrs i h)
              (ap (dinode_byte ip) (sym first) ∙ byte 0 (omega arith)) (byte 1 (omega arith))
              (byte 2 (omega arith)) (byte 3 (omega arith)));
    }

-- Whatever is in memory for an inode that is not valid: iload of it, behind an iupdate of the same
-- inode with fields that fit a `struct dinode`, does not panic unless the type is 0 and brings the
-- type, the device numbers, the links, the size and the 13 block addresses back; it keeps the number
-- of the inode and changes nothing on the disk.
pub iload-iupdate :
    (s : Work) (jp : Inode)
    → Fits s.ip
    → s.ip.typ ≢ 0
    → jp.inum ≡ s.ip.inum
    → (t u : Work) × (iupdate s ≡ ok tt t)
      × (iload (record t { ip = jp }) ≡ ok tt u)
      × (u.disk ≡ t.disk)
      × SameDinode u.ip s.ip
      × (u.ip.inum ≡ jp.inum)
unfolding iload read_dinode
iload-iupdate s jp x n e =
    let w = write_dinode s.ip (s.disk.block (iblock s.disk.sb s.ip.inum)) in
    let u : Work = record { disk = (updated s).disk; ip = read_dinode w jp } in
    let same = read-write_dinode s.ip jp (s.disk.block (iblock s.disk.sb s.ip.inum)) x e in
    let here : (updated s).disk.block (iblock s.disk.sb jp.inum) ≡ w = ground (arith, e) in
    let live : (get_short w (dinode_at jp.inum) == 0) ≡ false = ground (arith, same.typ) in
    (updated s, u, iupdate-updated s, rw (here, live) refl, refl, same, refl)
