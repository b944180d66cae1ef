-- ===== src/Fs/Paths.antt =====
-- Paths: find_inode_by_path of kernel/fs/fs_tools.c, and how the functions of kernel/fs/fs.c split
-- a path at its last slash. A path is the string without its end, of fewer than 80 characters.
use risc_v_qemu_kernel.Prelude.{ℕ, Option, none, some, List, [], ◌∷◌, ◌++◌, ◌==◌, if◌then◌else◌}
use risc_v_qemu_kernel.Kernel.{is_empty}
use risc_v_qemu_kernel.Fs.{Fs, M, minus_one, root_inode_num}
use risc_v_qemu_kernel.Fs.Card.{Card}
use risc_v_qemu_kernel.Fs.Names.{find_inode_by_name}

-- The character `/`.
abbrev pub slash : ℕ
slash = 47

-- `strrchr(path, '/')`: what stands before the last slash, and behind it.
unfoldable pub split_last : List ℕ → Option (List ℕ × List ℕ)
split_last [] = none
split_last (c ∷ cs) = elim (split_last cs) [
  | some (before, behind) ↦ some (c ∷ before, behind)
  | none ↦ if c == slash then some ([], cs) else none
]

-- `path[0] == '/'`, and the path without it.
abbrev pub is_absolute : List ℕ → Option (List ℕ)
is_absolute [] = none
is_absolute (c ∷ cs) = if c == slash then some cs else none

module _ (card : Card) where
  open card use {D}

  -- The loop over the names of a path, from the directory `curr` on; `name` holds what stands before the
  -- rest of the path, up to the slash in front of it.
  unfoldable pub walk : (curr : ℕ) (name path : List ℕ) → M (Fs D) ℕ
  walk curr name [] fs = if is_empty name then (curr, fs) else find_inode_by_name card curr name fs
  walk curr name (c ∷ cs) fs =
      let (found, after) = find_inode_by_name card curr name fs in
      let below = walk found [] cs after in
      let longer = walk curr (name ++ c ∷ []) cs fs in
      if c == slash then (if found == minus_one then (minus_one, after) else below) else longer

  unfoldable pub find_inode_by_path : List ℕ → M (Fs D) ℕ
  find_inode_by_path path fs = elim (is_absolute path) [
    | none ↦ walk fs.dir_inode [] path fs
    | some rest ↦ walk root_inode_num [] rest fs
  ]

  -- The inode of the directory that a path lies in, -1 if there is none, and the last name of the path.
  unfoldable pub parent_of : List ℕ → M (Fs D) (ℕ × List ℕ)
  parent_of path fs = elim (split_last path) [
    | none ↦ ((fs.dir_inode, path), fs)
    | some (before, last) ↦
        let (parent, after) = find_inode_by_path before fs in ((parent, last), after)
  ]
