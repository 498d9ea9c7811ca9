-- ===== src/Tests/Files.antt =====
-- The theorems of the file system and of C strings at small states.
use xv6_riscv_cs.Base.{List, [], arith, false, if◌then◌else◌, refl, some, ℕ, ◌==◌, ◌∷◌, ◌≡◌}
use xv6_riscv_cs.Fs.{Disk, Inode}
use xv6_riscv_cs.Fs.Inodes.{iget}
use xv6_riscv_cs.Fs.Inodes.Table.{IsGotten, IsUnique, iget-IsGotten}
use xv6_riscv_cs.Fs.Path.{skip_first, skip_slashes, skipelem, split_element, namex_loop}
use xv6_riscv_cs.Fs.Path.Elements.{Skips, elements, skipelem-Skips}
use xv6_riscv_cs.Fs.Blocks.Bitmap.{IsAllocated, balloc-IsAllocated}
use xv6_riscv_cs.Fs.Blocks.{balloc}
use xv6_riscv_cs.Fs.Path.Rounds.{namex_loop-rounds}

-- An inode of device 1 with `ref` references.
abbrev inode_with : ℕ → ℕ → Inode
inode_with inum ref = record {
  dev = 1;
  inum = inum;
  ref = ref;
  valid = 1;
  type = 1;
  major = 0;
  minor = 0;
  nlink = 1;
  size = 0;
  addrs = λ i. 0;
}

-- Entry 2 of the inode table holds inode 7; all others are free.
abbrev one_inode : Disk
one_inode = record {
  block = λ b i. 0;
  logged = [];
  sb = record { size = 2000; ninodes = 200; inodestart = 33; bmapstart = 46 };
  inode = λ i. inode_with 7 (if i == 2 then 1 else 0);
}

one_inode-IsUnique : IsUnique one_inode.inode
one_inode-IsUnique i j ei ej used h = ground (arith, h.0)

iget-IsGotten_example : IsGotten 1 7 one_inode (iget 1 7 one_inode)
iget-IsGotten_example = iget-IsGotten 1 7 one_inode one_inode-IsUnique

-- `//a/b`
abbrev sample_path : List ℕ
sample_path = b'/' ∷ b'/' ∷ b'a' ∷ b'/' ∷ b'b' ∷ []

skipelem-Skips_example : Skips sample_path (elements sample_path) (skipelem sample_path)
skipelem-Skips_example = skipelem-Skips sample_path

sample_element : skipelem sample_path ≡ some (b'a' ∷ 0 ∷ [], b'b' ∷ [])
unfolding skipelem skip_first skip_slashes split_element
sample_element = refl

-- `ab` and `ac`
abbrev first_name : List ℕ
first_name = b'a' ∷ b'b' ∷ []

abbrev other_name : List ℕ
other_name = b'a' ∷ b'c' ∷ []

balloc-IsAllocated_example : IsAllocated one_inode (balloc one_inode)
balloc-IsAllocated_example = balloc-IsAllocated one_inode

namex_loop-rounds_example :
    namex_loop 9 false sample_path 2 [] one_inode ≡ namex_loop 5 false sample_path 2 [] one_inode
namex_loop-rounds_example = namex_loop-rounds 9 false sample_path 2 [] one_inode (omega arith)
