-- ===== src/Lib.antt =====
-- ArgosFS: a file system that spreads its data over several disks. The program is a Rust crate
-- with a raw pool store (src/storage/raw), a journal and metadata (src/metadata), volume operations
-- (src/volume), access control (src/security), codecs and a cache (src/data), and a FUSE frontend
-- and command line on top. This library models the parts that decide which bytes, which metadata
-- and which access are the right ones.
--
-- Raw/Allocator.antt is src/storage/raw/allocator.rs: `init_allocator`, `allocate`, `free`,
-- `validate_allocations` and `coalesce`, on `RawAllocatorState` of src/model/types.rs. A method that
-- changes the allocator returns the new state. Its children: Cover counts the extents over a byte,
-- Invariant has the well-formedness of a state with the extents in use and its preservation,
-- History the reachable states, Validate what the validator accepts. Raw/Align.antt is `align_up` and
-- `align_down` of src/storage/raw/format.rs.
--
-- Raw/Format.antt is the rest of src/storage/raw/format.rs: the regions of a
-- device, `RawSuperblock::new`, and in Raw/Format/Check.antt the checks of a superblock that is read
-- and of its device, and Check/Aligned.antt says what they accept. Raw/Format/Bytes.antt has the fields of a buffer, Raw/Format/Superblock.antt the byte
-- forms of the superblock and the label, with SHA-256 as a parameter. Raw/Format/Layout.antt,
-- Create.antt and Superblock/Decoded.antt have the proofs. The allocator hands out
-- the data region of that layout.
--
-- Raw/Quorum.antt is the part of src/storage/raw/store.rs that picks the metadata which a quorum of
-- disks holds (`select_quorum_metadata_candidate`, `metadata_quorum_requirement`), with
-- `canonical_metadata_hash` of src/metadata/journal.rs. Writing metadata as JSON and reading it back
-- (serde_json) and SHA-256 are arguments of the definitions, about which nothing is assumed; what the
-- metadata holds besides the fields read here is a parameter type. Raw/Quorum/Journal.antt is
-- `raw_journal_quorum`, Raw/Quorum/Unmount.antt `clean_unmount_quorum`. Model.antt has the disks and the metadata of src/model/types.rs.
--
-- Security/Acl.antt is the validation, the chmod and the inheritance of POSIX ACLs in
-- src/security/acl.rs; Security/Acl/Evaluate.antt is the access decision
-- (`evaluate_access_with_groups` with `evaluate_nfs4`, `evaluate_posix` and `evaluate_mode`), and
-- Security/Acl/Xattr.antt the binary form (`posix_acl_to_xattr`, `parse_posix_acl_binary`), and
-- Security/Acl/PermBits.antt the text of the permissions.
--
-- Volume/Tree.antt has the inodes (`Inode` and the inode part of `Metadata` in src/model/types.rs) with
-- `dir_inode_locked`, `dir_inode_mut_locked`, `touch_inode_locked` and `alloc_inode_locked` of
-- src/volume/mod.rs and `root_inode` of src/volume/helpers.rs. Its children say what a well-formed tree is
-- and how single changes keep it so. Volume/Commit.antt is `commit_locked_with_previous` of
-- src/volume/mod.rs, as far as it decides which tree stays in memory; the calls that reach the devices are
-- the fields of its record `Mount`, and recovery is one of them. Volume/Namespace.antt and its children
-- are the operations on directory entries: Create (`mkdir_locked`, `mknod_locked`,
-- `symlink_at_with_owner`), Link (`link_at`), Unlink (`unlink_locked`, `reap_unlinked_inode`) and Rename
-- (`rename_locked`). Each stages a tree and commits it, and returns a result with the tree that is
-- left. History.antt there has sequences of them;
-- Commit/Storage.antt says what a commit makes of the devices, and History/Durable.antt compares memory
-- with them. Volume/Names.antt is the stored forms of names
-- and link targets and the namespaces of extended attributes, in src/volume/namespace.rs, with the crate
-- hex as two arguments.
--
-- Volume/Sparse.antt is `inode_data_extents`, `seek_data` and `seek_hole` of src/volume/helpers.rs, on
-- the blocks of a file.
--
-- Data/Cache.antt is the cache in memory of src/data/cache.rs, `BlockCache`, and Data/Cache/Disk.antt the
-- whole of it, with the files on disk, their index, its loading and its pruning. The test of a digest, the
-- path of a key and what the file system does in a call are parameters; calls are not interleaved.
-- Cache/Map.antt and Disk/Run.antt have the map that it is compared with.
--
-- Error.antt is src/error.rs. Common.antt and its children have the list, set, sort, bit and u64
-- helpers that the parts share.
--
-- Numbers are natural numbers. An addition that the source checks or saturates is written with the
-- bound of u64; loops over vectors and maps are recursion on lists, so there is no fuel, but for the
-- digits of `to_string`, where ten are enough for a u32, and for `directory_contains_inode`, to which the
-- rename gives the next inode number: enough on a well-formed tree without cycles (Rename/Ends.antt).
-- The rename takes a walk without an answer for one that found. Maps ordered by key are lists of pairs
-- (Common/Map.antt). A time is a number, read once in an operation.
--
-- Not modelled: paths, attributes, quotas and the contents of files, the journal's writer and its replay, the data plane
-- with its codecs, health scores, the FUSE frontend and the command line; the text form of a
-- whole ACL and the JSON form; logging and the texts of errors.
pub mod Common
pub mod Data
pub mod Error
pub mod Model
pub mod Raw
pub mod Security
pub mod Volume
