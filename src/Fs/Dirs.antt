-- ===== src/Fs/Dirs.antt =====
-- do_cd, do_mkdir, do_touch, do_open and do_ln of kernel/fs/fs.c. NULL, which some of them test for, is
-- `none`.
use risc_v_qemu_kernel.Prelude.{
  ℕ, ◌+◌, ◌%◌, ◌||◌, Option, none, some, List, [], ◌∷◌, leb, ◌==◌, if◌then◌else◌, update,
}
use risc_v_qemu_kernel.Prelude.Int.{ℤ, pos}
use risc_v_qemu_kernel.Fs.{
  Fs, Inode, M, u32, minus_one, block_size, fd_file, fd_dir, put_dentry, inode_of,
}
use risc_v_qemu_kernel.Fs.Card.{Card, write_block, get_inode, write_inode}
use risc_v_qemu_kernel.Fs.Maps.{alloc_inode, alloc_block}
use risc_v_qemu_kernel.Fs.Blocks.{clear_temp}
use risc_v_qemu_kernel.Fs.Names.{append_dentry, find_inode_by_name, edit_temp}
use risc_v_qemu_kernel.Fs.Paths.{find_inode_by_path, parent_of, split_last}
use risc_v_qemu_kernel.Fs.Files.{fail, alloc_fd, o_wronly, o_rdwr, set_fdesc}

-- `memset(&new_inode, 0, sizeof(inode_t))`
abbrev pub blank_inode : Inode
blank_inode = inode_of (λ k. 0)

-- The names `.` and `..`
abbrev pub dot : List ℕ
dot = 46 ∷ []

abbrev pub dot_dot : List ℕ
dot_dot = 46 ∷ 46 ∷ []

-- The block of a new directory.
abbrev pub put_dots : (self parent : ℕ) → (ℕ → ℕ) → ℕ → ℕ
put_dots self parent b =
    put_dentry 20 (record { name = dot_dot; inode_num = parent })
      (put_dentry 0 (record { name = dot; inode_num = self }) b)

module _ (card : Card) where
  open card use {D}

  unfoldable pub do_cd : Option (List ℕ) → M (Fs D) ℤ
  do_cd none fs = (pos 0, fs)
  do_cd (some path) fs =
      let (target, after) = find_inode_by_path card path fs in
      if target == minus_one
      then (fail, after)
      else if (get_inode card target after).file_type == fd_dir
      then (pos 0, record after { dir_inode = target })
      else (pos 1, after)

  -- `do_mkdir` and `do_touch` from the parent directory on: a name is not given twice.
  unfoldable pub make_dir : (parent : ℕ) → List ℕ → M (Fs D) ℤ
  make_dir parent name fs =
      let (old, searched) = find_inode_by_name card parent name fs in
      let (inode_num, s₁) = alloc_inode card searched in
      let (block_num, s₂) = alloc_block card s₁ in
      let s₃ =
        write_inode card inode_num
          (record blank_inode {
            file_type = fd_dir;
            size = block_size;
            nlinks = 2;
            direct_ptr = update (λ i. 0) 0 block_num;
          })
          s₂ in
      let s₄ =
        write_block card block_num 0 (edit_temp (put_dots inode_num parent) (clear_temp 0 s₃)) in
      let (parent_node, s₅) =
        append_dentry card (get_inode card parent s₄) parent
          (record { name = name; inode_num = inode_num }) s₄ in
      if old == minus_one
      then (
        pos 0,
        write_inode card parent (record parent_node { nlinks = (parent_node.nlinks + 1) % u32 }) s₅,
      )
      else (fail, searched)

  unfoldable pub do_mkdir : Option (List ℕ) → M (Fs D) ℤ
  do_mkdir none fs = (fail, fs)
  do_mkdir (some path) fs = elim (split_last path) [
    | none ↦ make_dir fs.dir_inode path fs
    | some (before, last) ↦
        let (parent, after) = find_inode_by_path card before fs in
        if parent == minus_one then (fail, after) else make_dir parent last after
  ]

  -- The result is the number of the new inode, as a bit pattern.
  unfoldable pub make_file : (parent : ℕ) → List ℕ → M (Fs D) ℕ
  make_file parent name fs =
      let (old, searched) = find_inode_by_name card parent name fs in
      let (inode_num, s₁) = alloc_inode card searched in
      let s₂ =
        write_inode card inode_num
          (record blank_inode { file_type = fd_file; size = 0; nlinks = 1 }) s₁ in
      let (parent_node, s₃) =
        append_dentry card (get_inode card parent s₂) parent
          (record { name = name; inode_num = inode_num }) s₂ in
      if old == minus_one
      then (inode_num, write_inode card parent parent_node s₃)
      else (minus_one, searched)

  unfoldable pub do_touch : Option (List ℕ) → M (Fs D) ℕ
  do_touch none fs = (minus_one, fs)
  do_touch (some path) fs = elim (split_last path) [
    | none ↦ make_file fs.dir_inode path fs
    | some (before, last) ↦
        let (parent, after) = find_inode_by_path card before fs in
        if parent == minus_one then (minus_one, after) else make_file parent last after
  ]

  -- `do_open` from the inode on: only files are opened.
  unfoldable pub open_inode : (inode_num mode : ℕ) → M (Fs D) ℤ
  open_inode inode_num mode fs =
      if (get_inode card inode_num fs).file_type == fd_file
      then elim (alloc_fd fs) [
        | none ↦ (fail, fs)
        | some fd ↦ (
          pos fd,
          set_fdesc fd (record { inode_num = inode_num; mode = mode; pos = 0; used = 1 }) fs,
        )
      ]
      else (fail, fs)

  -- `inode_num <= 0` is a test of an unsigned number.
  unfoldable pub do_open : List ℕ → (mode : ℕ) → M (Fs D) ℤ
  do_open path mode fs =
      let (inode_num, after) = find_inode_by_path card path fs in
      let (new_num, made) = do_touch (some path) after in
      if inode_num == minus_one
      then (if (mode == o_rdwr) || (mode == o_wronly)
          then (if leb new_num 0 then (fail, made) else open_inode new_num mode made)
          else (fail, after))
      else open_inode inode_num mode after

  unfoldable pub do_ln : (src_path dst_path : List ℕ) → M (Fs D) ℤ
  do_ln src_path dst_path fs =
      let (src, s₁) = find_inode_by_path card src_path fs in
      let src_node = get_inode card src s₁ in
      let ((parent, name), s₂) = parent_of card dst_path s₁ in
      let (old, s₃) = find_inode_by_name card parent name s₂ in
      let (parent_node, s₄) =
        append_dentry card (get_inode card parent s₃) parent
          (record { name = name; inode_num = src }) s₃ in
      let s₅ = write_inode card parent parent_node s₄ in
      if src == minus_one
      then (fail, s₁)
      else if src_node.file_type == fd_dir
      then (fail, s₁)
      else if parent == minus_one
      then (fail, s₂)
      else if old == minus_one
      then (
        pos 0,
        write_inode card src (record src_node { nlinks = (src_node.nlinks + 1) % u32 }) s₅,
      )
      else (fail, s₃)
