-- ===== src/Index/Tree.antt =====
-- A directory as a tree of names, and how it lies on the disk.
use ntfs_efi.Prelude.{ℕ, suc, ◌+◌, ◌*◌, ◌≤◌, ◌<◌, ◌≡◌, true, false, some, List, [], ◌∷◌, ◌++◌, max}
use ntfs_efi.Index.{
  IndexVolume, IndexAlloc, entry_length, is_end, indexed_file, name_length, name_type, entry_name,
  sub_vcn, has_sub_node, node_unused, load_block, block_first, block_last,
}

-- A name of the directory.
pub record Key : Type 0 where
  pub name : List ℕ
  pub mft : ℕ
  pub kind : ℕ

-- A subtree, with the VCN of its block, and the entries of a block with the subtrees in front of them.
mutual
  pub data Subtree : Type 0 where
    leaf : Subtree
    block : ℕ → Entries → Subtree

  pub data Entries : Type 0 where
    final : Subtree → Entries
    entry : Key → Subtree → Entries → Entries

-- The names in their order.
abbrev mutual
  pub keys : Subtree → List Key
  keys leaf = []
  keys (block vcn es) = keys_of es

  pub keys_of : Entries → List Key
  keys_of (final t) = keys t
  keys_of (entry k t es) = keys t ++ k ∷ keys_of es

abbrev mutual
  pub height : Subtree → ℕ
  height leaf = 0
  height (block vcn es) = suc (height_of es)

  pub height_of : Entries → ℕ
  height_of (final t) = height t
  height_of (entry k t es) = max (height t) (height_of es)

-- The bytes of an entry.
pub record IsEntry (buf : List ℕ) (end e : ℕ) : Type 0 where
  pub filled : 0 < entry_length buf e
  pub inside : e + entry_length buf e ≤ end

pub record IsKey (buf : List ℕ) (e : ℕ) (k : Key) : Type 0 where
  pub names : is_end buf e ≡ false
  pub fits : 82 + name_length buf e * 2 ≤ entry_length buf e
  pub name_at : entry_name buf e ≡ k.name
  pub mft_at : indexed_file buf e ≡ k.mft
  pub kind_at : name_type buf e ≡ k.kind

abbrev pub HasChild : List ℕ → ℕ → Subtree → Type 0
HasChild buf e leaf = has_sub_node buf e ≡ false
HasChild buf e (block vcn es) = (has_sub_node buf e ≡ true) × (sub_vcn buf e ≡ vcn)

module _ (v : IndexVolume) (a : IndexAlloc) where
  abbrev mutual
    -- The subtree lies in the $INDEX_ALLOCATION.
    pub IsStored : Subtree → Type 0
    IsStored leaf = Unit {0}
    IsStored (block vcn es) =
        (buf : List ℕ) × (load_block v a vcn ≡ some buf)
        × (node_unused a vcn ≡ false)
        × HoldsEntries buf (block_last buf) (block_first buf) es

    -- The entries lie in a buffer, from e to its end.
    pub HoldsEntries : List ℕ → ℕ → ℕ → Entries → Type 0
    HoldsEntries buf end e (final t) =
        IsEntry buf end e × (is_end buf e ≡ true) × HasChild buf e t × IsStored t
    HoldsEntries buf end e (entry k t es) =
        IsEntry buf end e
        × IsKey buf e k
        × HasChild buf e t
        × IsStored t
        × HoldsEntries buf end (e + entry_length buf e) es
