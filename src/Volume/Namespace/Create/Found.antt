-- ===== src/Volume/Namespace/Create/Found.antt =====
-- A directory that was made is found under its name.
use argos_fs.Common.Map.{nat_key, get-put}
use argos_fs.Common.Bytes.{bytes_key}
use argos_fs.Common.{
  ℕ, ◌+◌, ◌≤◌, ◌≡◌, refl, sym, subst, true, false, [], Option, none, some, ◌==◌, ==_iff, arith,
}
use argos_fs.Error.{Result, ok, err, is_ok, Yields, >>=-Yields, ok-injective}
use argos_fs.Security.Acl.{directory}
use argos_fs.Volume.Commit.{Mount, Outcome, ensure_block_backend_writable, commit_with_previous}
use argos_fs.Volume.Commit.Outcome.{staged, rolled_back, reloaded, commit_with_previous-Left}
use argos_fs.Volume.Names.{validate_entry_name}
use argos_fs.Volume.Namespace.{vacant_in, one_more, settle, after}
use argos_fs.Volume.Namespace.Collapse.{
  found_there, found_elsewhere, update_node-insert_node, vacant_in-ok,
}
use argos_fs.Volume.Namespace.Create.{new_directory, stage_mkdir, mkdir}
use argos_fs.Volume.Namespace.Create.Entered.{enter-ok}
use argos_fs.Volume.Tree.{Name, Node, Tree, find_node, insert_node, add_name, touched, touch_inode}
use argos_fs.Volume.Tree.WellFormed.{IsTree, lookup}

-- An empty directory stands behind the name, which had nothing behind it.
pub record IsMade (t : Tree) (parent : ℕ) (name : Name) (ino : ℕ) (u : Tree) : Type 0 where
  pub free : lookup parent name t ≡ none
  pub unused : find_node ino t ≡ none
  pub entry : lookup parent name u ≡ some ino
  pub node : Node
  pub found : find_node ino u ≡ some node
  pub kind : node.kind ≡ directory
  pub empty : node.entries ≡ []

-- A commit that succeeds leaves the staged tree.
pub commit_with_previous-ok :
    (m : Mount) (previous : Option Tree) (s : Tree)
    → is_ok (commit_with_previous m previous s).0 ≡ true
    → (commit_with_previous m previous s).1 ≡ s
commit_with_previous-ok m previous s h = elim (commit_with_previous-Left m previous s) [
  | staged e ↦ e
  | rolled_back e f ↦ absurd (ground (arith, h, f))
  | reloaded e f ↦ absurd (ground (arith, h, f))
]

module _ (m : Mount) (t : Tree) (w : IsTree t) (parent : ℕ) (name : Name) where
  stage_mkdir-IsMade :
      (mode uid gid : ℕ)
      → Yields (IsMade t parent name t.next_inode) (stage_mkdir m t parent name mode uid gid)
  unfolding stage_mkdir touch_inode
  stage_mkdir-IsMade mode uid gid =
      let P = IsMade t parent name t.next_inode in
      >>=-Yields P (ensure_block_backend_writable m) _ (λ _ _.
        >>=-Yields P (validate_entry_name name) _ (λ _ _.
          >>=-Yields P (vacant_in parent name t) _ (λ p e.
            let (found, dir, free) = vacant_in-ok parent name t p e in
            let node = new_directory m t parent p name mode uid gid in
            let named = add_name name t.next_inode p in
            let base : Tree = record (insert_node t.next_inode node t) {
              next_inode = t.next_inode + 1;
            } in
            let last : Node = touched true true m.now (one_more named) in
            let nothing : find_node t.next_inode t ≡ none =
              w.fresh t.next_inode (≤_refl t.next_inode) in
            let apart : (parent == t.next_inode) ≡ false =
              ground (arith, nothing, found, ==_iff parent t.next_inode) in
            rw (enter-ok t w parent name p found dir free node refl refl) (
              rw (update_node-insert_node parent one_more base named) (
                rw (update_node-insert_node parent (touched true true m.now) base (one_more named))
                  (record {
                    free = rw found free;
                    unused = nothing;
                    entry = rw (found_there parent last base) (
                        ground (
                          arith,
                          get-put name name t.next_inode p.entries,
                          bytes_key.same_iff name name,
                        ));
                    node = node;
                    found =
                        found_elsewhere parent t.next_inode last node base apart
                          (found_there t.next_inode node t);
                    kind = refl;
                    empty = refl;
                  }))))))
    where
      ≤_refl : (n : ℕ) → n ≤ n
      ≤_refl n = omega arith

  finished :
      (r : Result Tree) (ino : ℕ)
      → Yields (IsMade t parent name t.next_inode) r
      → (after (settle m none t r) (λ s. ok t.next_inode)).0 ≡ ok ino
      → IsMade t parent name ino (after (settle m none t r) (λ s. ok t.next_inode)).1
  finished (err e) ino h k = absurd (ground (arith, k))
  finished (ok s) ino h k = committed (commit_with_previous m none s) refl k
    where
      committed :
          (o : Outcome (Unit {0}))
          → commit_with_previous m none s ≡ o
          → (after o (λ s. ok t.next_inode)).0 ≡ ok ino
          → IsMade t parent name ino (after o (λ s. ok t.next_inode)).1
      committed (err e, u) i j = absurd (ground (arith, j))
      committed (ok v, u) i j =
          let same : u ≡ s =
            subst (λ (o : Outcome (Unit {0})). is_ok o.0 ≡ true → o.1 ≡ s) i
              (commit_with_previous-ok m none s) refl in
          subst (λ n. IsMade t parent name n u) (ok-injective j)
            (subst (IsMade t parent name t.next_inode) (sym same) h)

  -- When `mkdir` on a well-formed tree returns an inode number, the number was unused and the name was free, and afterwards
  -- the name leads to the number, which is that of an empty directory.
  pub mkdir-IsMade :
      (mode uid gid ino : ℕ)
      → (mkdir m t parent name mode uid gid).0 ≡ ok ino
      → IsMade t parent name ino (mkdir m t parent name mode uid gid).1
  unfolding mkdir
  mkdir-IsMade mode uid gid ino h =
      finished (stage_mkdir m t parent name mode uid gid) ino (stage_mkdir-IsMade mode uid gid) h
