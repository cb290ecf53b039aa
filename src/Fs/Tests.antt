-- ===== src/Fs/Tests.antt =====
-- A small disk with one file, runs on it, and instances of the theorems on files.
use operating_systems_projec.Prelude.{
  Option, ◌∷◌, false, ℕ, ◌+◌, ◌-◌, ◌*◌, ◌/◌, ◌%◌, ◌≤◌, ◌<◌, ◌≡◌, ◌≢◌, refl, ◌⊎◌, none, some, List,
  [], ◌==◌, ltb, if◌then◌else◌, arith, min, cells, length,
}
use operating_systems_projec.Prelude.Kernel.{ok, panic, unlocked}
use operating_systems_projec.Fs.{Disk, bit, balloc}
use operating_systems_projec.Fs.Bitmap.{used, IsDisk, Allocates, balloc_lem}
use operating_systems_projec.Fs.Inode.{Inode, Work, maxfile, iupdate, iload, readi, writei}
use operating_systems_projec.Fs.Layout.{addr_of, content, IsData}
use operating_systems_projec.Fs.Room.{Crowded}
use operating_systems_projec.Fs.ReadWrite.{IsWhole, readi_lem}
use operating_systems_projec.Fs.Dir.{find_entry}
use operating_systems_projec.Fs.Dir.Lookup.{IsDir, Finds, find_entry_lem}
use operating_systems_projec.Fs.Path.{skipelem}
use operating_systems_projec.Fs.Path.Elements.{Slashes, Takes, skipelem_lem}
use operating_systems_projec.Fs.Icache.{Icache, iget}
use operating_systems_projec.Fs.Icache.Get.{Holds, Gives, iget_lem}
use operating_systems_projec.Fs.Truncate.Finish.{Truncated, itrunc_lem}
use operating_systems_projec.Fs.Inode.{itrunc}
use operating_systems_projec.Fs.Update.{Fits, SameDinode, iload-iupdate}
use operating_systems_projec.Fs.WriteFile.{Stores, writei_lem}

-- 100 blocks: the inodes from block 2 on, the bitmap in block 10, of which the first 64 bits are set.
-- Block 20 holds the data of the file, the byte `i` at index `i`.
abbrev disk : Disk
disk = record {
  sb = record { size = 100; ninodes = 16; inodestart = 2; bmapstart = 10 };
  block = λ b i. if b == 10 then (if ltb i 8 then 255 else 0) else if b == 20 then i % 256 else 0;
}

abbrev inode_of : (typ size : ℕ) → Inode
inode_of typ size = record {
  dev = 1;
  inum = 1;
  typ = typ;
  major = 0;
  minor = 0;
  nlink = 1;
  size = size;
  addrs = λ k. if k == 0 then 20 else 0;
}

abbrev work_of : (typ size : ℕ) → Work
work_of typ size = record { disk = disk; ip = inode_of typ size }

abbrev file : Inode
file = inode_of 2 5

abbrev work : Work
work = work_of 2 5

disk-IsDisk : IsDisk disk
unfolding bit
disk-IsDisk = record {
  small = omega arith;
  first = omega arith;
  within = λ b h. omega arith;
  bitmap = λ b h. let e : b / 4096 + 10 ≡ 10 = omega arith in rw e (omega arith);
}

file-addr_of : (t n bn : ℕ) → addr_of (work_of t n) bn ≡ (if bn == 0 then 20 else 0)
unfolding addr_of
file-addr_of t n bn = ground arith

work_of-IsData : (t n : ℕ) → IsData (work_of t n) 20
unfolding bit
work_of-IsData t n = record {
  inside = omega arith;
  taken = omega arith;
  no_bitmap = λ b h. omega arith;
  no_inode = omega arith;
}

work_of-IsWhole : (t n : ℕ) → n ≤ 512 → IsWhole (work_of t n)
unfolding bit
work_of-IsWhole t m l = record {
  file = record {
    disk = disk-IsDisk;
    home = record {
      home_nonzero = omega arith;
      home_used = omega arith;
      home_inside = omega arith;
      home_apart = λ c h. omega arith;
    };
    indirect = λ n. absurd (n refl);
    apart = λ bn h n. n;
    blocks = λ bn h n.
        let e : addr_of (work_of t m) bn ≡ 20 = ground (arith, file-addr_of t m bn) in
        rw e (work_of-IsData t m);
    distinct = λ bn bm h k n e. ground (arith, file-addr_of t m bn, file-addr_of t m bm);
  };
  limit = omega arith;
  mapped = λ k a b. ground (arith, file-addr_of t m (k / 512));
}

file-IsWhole : IsWhole work
file-IsWhole = work_of-IsWhole 2 5 (omega arith)

balloc_lem_example :
    ((balloc disk ≡ panic) × ((c : ℕ) → c < 100 → used disk c ≢ 0))
    ⊎ ((b : ℕ) × (t : Disk) × (balloc disk ≡ ok b t) × (b ≢ 0) × Allocates b disk t × IsDisk t)
balloc_lem_example = balloc_lem disk disk-IsDisk

readi_lem_example :
    readi (λ i. none) 2 9 work
    ≡ ok
        (if ltb 5 2
          then (none, [])
          else (some (min 9 (5 - 2)), cells (content work) 2 (min 9 (5 - 2))))
        work
readi_lem_example = readi_lem (λ i. none) 2 9 work file-IsWhole (omega arith) (omega arith)

-- A write over the end of the first block.
abbrev sevens : List ℕ
sevens = cells (λ i. 7) 0 600

writei_lem_example :
    ((5 < 3 ⊎ maxfile * 512 < 3 + length sevens)
      × (writei (λ i. none) 3 sevens work ≡ ok none work))
    ⊎ ((3 ≤ 5)
        × (3 + length sevens ≤ maxfile * 512)
        × (((writei (λ i. none) 3 sevens work ≡ panic) × Crowded 3 (length sevens) work)
            ⊎ ((t : Work) × (writei (λ i. none) 3 sevens work ≡ ok (some (length sevens)) t)
                × Stores 3 sevens work t)))
writei_lem_example =
    writei_lem (λ i. none) 3 sevens work file-IsWhole (omega arith) (omega arith) (omega arith)

file-Fits : Fits file
file-Fits = record {
  typ = omega arith;
  major = omega arith;
  minor = omega arith;
  nlink = omega arith;
  size = omega arith;
  addrs = λ i h. ground arith;
}

-- What the cache holds for an inode that is not valid.
abbrev stale : Inode
stale = record {
  dev = 1;
  inum = 1;
  typ = 0;
  major = 9;
  minor = 9;
  nlink = 9;
  size = 99;
  addrs = λ i. 77;
}

iload-iupdate_example :
    (t u : Work) × (iupdate work ≡ ok tt t)
    × (iload (record t { ip = stale }) ≡ ok tt u)
    × (u.disk ≡ t.disk)
    × SameDinode u.ip file
    × (u.ip.inum ≡ 1)
iload-iupdate_example = iload-iupdate work stale file-Fits (omega arith) refl

itrunc_lem_example : (t : Work) × (itrunc work ≡ ok tt t) × Truncated work t
itrunc_lem_example = itrunc_lem work (file-IsWhole.file)

-- The path "/ab//c".
skipelem_lem_example :
    ((skipelem (b'/' ∷ b'a' ∷ b'b' ∷ b'/' ∷ b'/' ∷ b'c' ∷ []) (λ j. 7) ≡ none)
      × Slashes (b'/' ∷ b'a' ∷ b'b' ∷ b'/' ∷ b'/' ∷ b'c' ∷ []))
    ⊎ ((rest : List ℕ) × (name : ℕ → ℕ) × (skipelem
            (b'/' ∷ b'a' ∷ b'b' ∷ b'/' ∷ b'/' ∷ b'c' ∷ [])
            (λ j. 7)
          ≡ some (rest, name))
        × Takes (b'/' ∷ b'a' ∷ b'b' ∷ b'/' ∷ b'/' ∷ b'c' ∷ []) (λ j. 7) rest name)
skipelem_lem_example =
    skipelem_lem (b'/' ∷ b'a' ∷ b'b' ∷ b'/' ∷ b'/' ∷ b'c' ∷ []) (λ j. 7) (omega arith)

abbrev first_two : Option (List ℕ × (ℕ → ℕ)) → List ℕ
first_two none = []
first_two (some (rest, name)) = name 0 ∷ name 1 ∷ name 2 ∷ rest

skipelem_ab :
    first_two (skipelem (b'/' ∷ b'a' ∷ b'b' ∷ b'/' ∷ b'/' ∷ b'c' ∷ []) (λ j. 7))
    ≡ b'a' ∷ b'b' ∷ 0 ∷ b'c' ∷ []
unfolding skipelem
skipelem_ab = refl

-- The same block as a directory of two entries.
abbrev dir : Work
dir = work_of 1 32

dir-IsDir : IsDir dir
dir-IsDir = record { whole = work_of-IsWhole 1 32 (omega arith); typ = refl; entries = refl }

find_entry_lem_example :
    (o : Option (ℕ × ℕ)) × (find_entry (λ i. none) (λ j. j + 18) dir ≡ ok o dir)
    × Finds dir (λ j. j + 18) 0 o
find_entry_lem_example = find_entry_lem (λ i. none) (λ j. j + 18) dir dir-IsDir

abbrev cold : Icache
cold = record {
  disk = disk;
  entry = λ i. record {
    ref = 0;
    lock = unlocked (record { locked = false; pid = 0; wakeups = 0 });
    valid = false;
    ip = file;
  };
}

iget_lem_example :
    ((iget 1 7 (unlocked cold) ≡ panic)
      × ((k : ℕ) → k < 50 → (0 < (cold.entry k).ref) × ¬ (Holds 1 7 cold.entry k)))
    ⊎ ((i : ℕ) × (d : Icache) × (iget 1 7 (unlocked cold) ≡ ok i (unlocked d)) × Gives 1 7 i cold d)
iget_lem_example = iget_lem 1 7 cold (λ i j h k p. absurd (omega arith))
