-- ===== src/Fs/Opening.antt =====
-- do_open of kernel/fs/fs.c, and the two tables of descriptors.
use risc_v_qemu_kernel.Prelude.{
  ℕ, zero, suc, ◌+◌, ◌≡◌, ◌≢◌, ◌⊎◌, refl, ◌∙◌, ap, Bool, true, false, some, List, [], ◌∷◌, ◌++◌,
  arith, ◌==◌, Bool-cases, Option-cases, inl, inr, find-hit, leb, ◌||◌,
}
use risc_v_qemu_kernel.Prelude.Int.{ℤ, pos}
use risc_v_qemu_kernel.Fs.{Fs, Inode, Dentry, fd_file, minus_one, root_inode_num}
use risc_v_qemu_kernel.Fs.Card.{Card, read_block, write_block, write_inode, get_inode}
use risc_v_qemu_kernel.Fs.Maps.{alloc_inode}
use risc_v_qemu_kernel.Fs.Blocks.{get_physical_block_id}
use risc_v_qemu_kernel.Fs.Names.{
  search_blocks, append_block, append_dentry, find_inode_by_name, is_free, is_entry, num_blocks,
}
use risc_v_qemu_kernel.Fs.Paths.{walk, find_inode_by_path, split_last, is_absolute}
use risc_v_qemu_kernel.Fs.Files.{fail, alloc_fd, o_rdwr, o_wronly}
use risc_v_qemu_kernel.Fs.Dirs.{blank_inode, make_file, do_touch, open_inode, do_open}
use risc_v_qemu_kernel.Fs.Tables.{tables, get_physical_block_id-tables, alloc_inode-tables}

module _ (card : Card) where
  open card use {D}

  search_blocks-tables :
      (test : Fs D → ℕ → Bool) (node : Inode) (dir n i : ℕ) (fs : Fs D)
      → tables (search_blocks card test node dir n i fs).1 ≡ tables fs
  unfolding search_blocks read_block
  search_blocks-tables test node dir zero i fs = refl
  search_blocks-tables test node dir (suc n) i fs =
      let ((b, same), after) = get_physical_block_id card node dir i false fs in
      ground (
        arith,
        get_physical_block_id-tables card node dir i false fs,
        search_blocks-tables test node dir n (i + 1) after,
        search_blocks-tables test node dir n (i + 1) (read_block card b 0 after),
      )

  append_block-tables :
      (node : Inode) (dir : ℕ) (d : Dentry) (fs : Fs D)
      → tables (append_block card node dir d fs).1 ≡ tables fs
  unfolding append_block write_block
  append_block-tables node dir d fs =
      ground (arith, get_physical_block_id-tables card node dir (num_blocks node) true fs)

  append_dentry-tables :
      (node : Inode) (dir : ℕ) (d : Dentry) (fs : Fs D)
      → tables (append_dentry card node dir d fs).1 ≡ tables fs
  unfolding append_dentry write_block
  append_dentry-tables node dir d fs =
      let after = (search_blocks card is_free node dir (num_blocks node) 0 fs).1 in
      ground (
        arith,
        search_blocks-tables is_free node dir (num_blocks node) 0 fs,
        append_block-tables node dir d after,
      )

  find_inode_by_name-tables :
      (dir : ℕ) (name : List ℕ) (fs : Fs D)
      → tables (find_inode_by_name card dir name fs).1 ≡ tables fs
  unfolding find_inode_by_name
  find_inode_by_name-tables dir name fs =
      let node = get_inode card dir fs in
      ground (arith, search_blocks-tables (is_entry name) node dir (num_blocks node) 0 fs)

  walk-tables :
      (curr : ℕ) (name path : List ℕ) (fs : Fs D)
      → tables (walk card curr name path fs).1 ≡ tables fs
  unfolding walk
  walk-tables curr name [] fs = ground (arith, find_inode_by_name-tables curr name fs)
  walk-tables curr name (c ∷ cs) fs =
      let (found, after) = find_inode_by_name card curr name fs in
      ground (
        arith,
        find_inode_by_name-tables curr name fs,
        walk-tables found [] cs after,
        walk-tables curr (name ++ c ∷ []) cs fs,
      )

  pub find_inode_by_path-tables :
      (path : List ℕ) (fs : Fs D) → tables (find_inode_by_path card path fs).1 ≡ tables fs
  unfolding find_inode_by_path
  find_inode_by_path-tables path fs = elim (Option-cases (is_absolute path)) [
    | inl relative ↦ rw (relative, find_inode_by_path) (walk-tables fs.dir_inode [] path fs)
    | inr (rest, absolute) ↦
        rw (absolute, find_inode_by_path) (walk-tables root_inode_num [] rest fs)
  ]

  make_file-tables :
      (parent : ℕ) (name : List ℕ) (fs : Fs D)
      → tables (make_file card parent name fs).1 ≡ tables fs
  unfolding make_file write_inode
  make_file-tables parent name fs =
      let searched = (find_inode_by_name card parent name fs).1 in
      let (n, s₁) = alloc_inode card searched in
      let s₂ =
        write_inode card n (record blank_inode { file_type = fd_file; size = 0; nlinks = 1 }) s₁ in
      ground (
        arith,
        find_inode_by_name-tables parent name fs,
        alloc_inode-tables card searched,
        append_dentry-tables (get_inode card parent s₂) parent
            (record { name = name; inode_num = n }) s₂,
      )

  do_touch-tables :
      (path : List ℕ) (fs : Fs D) → tables (do_touch card (some path) fs).1 ≡ tables fs
  unfolding do_touch
  do_touch-tables path fs = elim (Option-cases (split_last path)) [
    | inl plain ↦ rw (plain, do_touch) (make_file-tables fs.dir_inode path fs)
    | inr (parts, split) ↦
        let (parent, after) = find_inode_by_path card parts.0 fs in
        rw (split, do_touch)
          (ground
            (arith, find_inode_by_path-tables parts.0 fs, make_file-tables parent parts.1 after))
  ]

  -- What an attempt to open a file comes to: it fails, and the descriptors are as they were; or it
  -- returns descriptor 0, whatever that was used for.
  abbrev pub Opened : (mode : ℕ) → Fs D → ℤ → Fs D → Type 0
  Opened mode fs fd after =
      (after.tools_fdesc_array ≡ fs.tools_fdesc_array)
      × (((fd ≡ fail) × (after.fdesc_array ≡ fs.fdesc_array))
          ⊎ ((fd ≡ pos 0)
              × ((after.fdesc_array 0).mode ≡ mode)
              × ((after.fdesc_array 0).pos ≡ 0)
              × ((i : ℕ) → i ≢ 0 → after.fdesc_array i ≡ fs.fdesc_array i)))

  not-Opened : (mode : ℕ) (fs s : Fs D) → tables s ≡ tables fs → Opened mode fs fail s
  not-Opened mode fs s same = (ap (λ t. t.1) same, inl (refl, ap (λ t. t.0) same))

  open_inode-Opened :
      (n mode : ℕ) (fs s : Fs D)
      → tables s ≡ tables fs
      → (fs.tools_fdesc_array 0).used ≡ 0
      → let (fd, after) = open_inode card n mode s in Opened mode fs fd after
  unfolding open_inode alloc_fd
  open_inode-Opened n mode fs s same free =
      let test = λ (fd : ℕ). (s.tools_fdesc_array fd).used == 0 in
      let unused : test 0 ≡ true = ap (λ t. (t.1 0).used == 0) same ∙ ground (arith, free) in
      let first = find-hit test 16 0 unused (λ j lt. absurd (omega arith)) (omega arith) in
      elim (Bool-cases ((get_inode card n s).file_type == fd_file)) [
        | inl file ↦
            rw (file, first, open_inode)
              (
                ap (λ t. t.1) same,
                inr (refl, refl, refl, λ i ne. ground (arith, ap (λ t. t.0 i) same)),
              )
        | inr other ↦ rw (other, open_inode) (not-Opened mode fs s same)
      ]

  -- `alloc_fd` looks at the table of fs_tools.c, which `do_open` does not fill: with that table
  -- empty at 0, every `do_open` that succeeds returns descriptor 0, also while it is in use, and
  -- changes no other; and the table stays as it is, for the next call.
  pub do_open-Opened :
      (path : List ℕ) (mode : ℕ) (fs : Fs D)
      → (fs.tools_fdesc_array 0).used ≡ 0
      → let (fd, after) = do_open card path mode fs in Opened mode fs fd after
  unfolding do_open
  do_open-Opened path mode fs free =
      let (n, after) = find_inode_by_path card path fs in
      let same = find_inode_by_path-tables path fs in
      let (m, made) = do_touch card (some path) after in
      let touched = do_touch-tables path after ∙ same in
      elim (Bool-cases (n == minus_one)) [
        | inr there ↦ rw (there, do_open) (open_inode-Opened n mode fs after same free)
        | inl missing ↦ elim (Bool-cases ((mode == o_rdwr) || (mode == o_wronly))) [
          | inr reading ↦ rw (missing, reading, do_open) (not-Opened mode fs after same)
          | inl writing ↦ elim (Bool-cases (leb m 0)) [
            | inl zero_num ↦
                rw (missing, writing, zero_num, do_open) (not-Opened mode fs made touched)
            | inr number ↦
                rw (missing, writing, number, do_open)
                  (open_inode-Opened m mode fs made touched free)
          ]
        ]
      ]
