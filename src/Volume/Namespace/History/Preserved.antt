-- ===== src/Volume/Namespace/History/Preserved.antt =====
-- Every operation, and so every history, keeps the tree well formed.
use argos_fs.Common.{
  ℕ, ◌≡◌, refl, sym, ◌∙◌, subst, inl, inr, false, ◌&&◌, not, List, [], ◌∷◌, ◌++◌, Option, none,
  some, ◌==◌, if_cases, arith,
}
use argos_fs.Error.{Result, ok, err, Yields, >>=-Yields}
use argos_fs.Security.Acl.{is_directory}
use argos_fs.Volume.Commit.{
  Mount, Outcome, ensure_block_backend_writable, transaction_error_is_committed, is_conflict,
  commit_with_previous, commit,
}
use argos_fs.Volume.Commit.Outcome.{staged, rolled_back, reloaded, commit_with_previous-Left}
use argos_fs.Volume.Namespace.{settle, after}
use argos_fs.Volume.Namespace.Create.{
  mkdir, commit_previous_snapshot, mknod_failed, mknod_settled, mknod_finish, mknod, symlink_at,
}
use argos_fs.Volume.Namespace.Create.Entered.{
  IsRoomy, stage_mkdir-Yields, stage_mknod-Yields, stage_symlink-Yields,
}
use argos_fs.Volume.Namespace.Link.{link_at}
use argos_fs.Volume.Namespace.Link.Linked.{stage_link-Yields}
use argos_fs.Volume.Namespace.Rename.{rename_settled, rename}
use argos_fs.Volume.Namespace.Rename.Staged.{IsStaged, stage_rename-Yields}
use argos_fs.Volume.Namespace.Unlink.{
  unlink, reap_found, stage_reap, reap_settled, reap_unlinked_inode,
}
use argos_fs.Volume.Namespace.Unlink.Removed.{stage_unlink-Yields}
use argos_fs.Volume.Tree.{Name, Node, Tree, find_node}
use argos_fs.Volume.Tree.Remove.{reaped-IsTree}
use argos_fs.Volume.Tree.WellFormed.{IsTree}
use argos_fs.Volume.Namespace.History.{
  Request, make_directory, make_node, make_symlink, make_link, remove_name, reap_inode, rename_name,
  as_staged, handed, Among, staged_by, perform, History, begin, next,
}

abbrev All {ℓ} : (Tree → Type ℓ) → List Tree → Type ℓ
All P [] = Unit
All P (t ∷ known) = P t × All P known

All-Among {ℓ} :
    (P : Tree → Type ℓ) (known : List Tree) (u : Tree) → All P known → Among u known → P u
All-Among P [] u h i = absurd i
All-Among P (s ∷ known) u (h, hs) (inl e) = subst P (sym e) h
All-Among P (s ∷ known) u (h, hs) (inr i) = All-Among P known u hs i

module _ (m : Mount) (t : Tree) (w : IsTree t)
    (trusted : (u : Tree) → m.recover ≡ ok u → IsTree u) where
  kept-IsTree :
      (previous : Option Tree) (s : Tree)
      → IsTree s
      → ((p : Tree) → previous ≡ some p → IsTree p)
      → IsTree (commit_with_previous m previous s).1
  kept-IsTree previous s h before = elim (commit_with_previous-Left m previous s) [
    | staged e ↦ subst IsTree (sym e) h
    | rolled_back e f ↦ before _ e
    | reloaded e f ↦ trusted _ e
  ]

  settle-IsTree : (r : Result Tree) → Yields IsTree r → IsTree (settle m none t r).1
  settle-IsTree (err e) h = w
  settle-IsTree (ok s) h = kept-IsTree none s h (λ p e. absurd (ground (arith, e)))

  after-IsTree :
      {A : Type 0} (o : Outcome (Unit {0})) (f : Tree → Result A)
      → IsTree o.1
      → IsTree (after o f).1
  after-IsTree (err e, u) f h = h
  after-IsTree (ok v, u) f h = h

  snapshot-IsTree :
      (parent : ℕ) (p : Tree) → commit_previous_snapshot m t parent ≡ some p → IsTree p
  snapshot-IsTree parent p e = subst IsTree (ground (arith, e)) w

  mknod_settled-IsTree :
      (parent : ℕ) (o : Outcome (Unit {0})) → IsTree o.1 → IsTree (mknod_settled m t parent o).1
  mknod_settled-IsTree parent (ok v, u) h = h
  mknod_settled-IsTree parent (err e, u) h =
      failed (commit_previous_snapshot m t parent) (snapshot-IsTree parent)
    where
      failed :
          (p : Option Tree)
          → ((q : Tree) → p ≡ some q → IsTree q)
          → IsTree (mknod_failed m t parent e u p).1
      failed none b = h
      failed (some q) b =
          if_cases (λ (o : Outcome (Unit {0})). IsTree o.1)
            (not (transaction_error_is_committed e) && not (is_conflict e)) (λ y. b q refl) (λ n. h)

  mknod_finish-IsTree :
      (parent : ℕ) (r : Result Tree) → Yields IsTree r → IsTree (mknod_finish m t parent r).1
  mknod_finish-IsTree parent (err e) h = w
  mknod_finish-IsTree parent (ok s) h =
      mknod_settled-IsTree parent _
        (kept-IsTree (commit_previous_snapshot m t parent) s h (snapshot-IsTree parent))

  rename_settled-IsTree :
      (p : ℕ) (a : Name) (q : ℕ) (b : Name) (r : Result (Option Tree))
      → Yields IsStaged r
      → IsTree (rename_settled m t p a q b r).1
  unfolding commit
  rename_settled-IsTree p a q b (err e) h = w
  rename_settled-IsTree p a q b (ok none) h = w
  rename_settled-IsTree p a q b (ok (some s)) h =
      after-IsTree (commit m s) _ (kept-IsTree none s h (λ p e. absurd (ground (arith, e))))

  reap_settled-IsTree :
      (r : Result (Option Tree)) → Yields IsStaged r → IsTree (reap_settled m t r).1
  unfolding commit
  reap_settled-IsTree (err e) h = w
  reap_settled-IsTree (ok none) h = w
  reap_settled-IsTree (ok (some s)) h = kept-IsTree none s h (λ p e. absurd (ground (arith, e)))

as_staged-Yields : (r : Result Tree) → Yields IsTree r → Yields IsStaged (as_staged r)
as_staged-Yields (err e) h = tt
as_staged-Yields (ok s) h = h

handed-All :
    (s : Result (Option Tree)) (known : List Tree)
    → Yields IsStaged s
    → All IsTree known
    → All IsTree (handed s ++ known)
handed-All (err e) known y k = k
handed-All (ok none) known y k = k
handed-All (ok (some s)) known y k = (y, k)

-- An inode without a name is a file, for a directory counts itself.
stage_reap-Yields :
    (m : Mount) (t : Tree) → IsTree t → (ino : ℕ) → Yields IsStaged (stage_reap m t ino)
unfolding stage_reap
stage_reap-Yields m t w ino =
    >>=-Yields IsStaged (ensure_block_backend_writable m) _ (λ _ _. reaped (find_node ino t) refl)
  where
    reaped : (o : Option Node) → find_node ino t ≡ o → IsStaged (reap_found m t ino o)
    reaped none e = tt
    reaped (some n) e =
        if_cases IsStaged (not (n.nlink == 0)) (λ y. tt)
          (λ z.
            let file : is_directory n.kind ≡ false = ground (arith, w.dir_links ino n e, z) in
            reaped-IsTree t w ino n e file (sym (w.file_links ino n e file) ∙ ground (arith, z)))

module _ (hex_encode : List ℕ → List ℕ) (hex_decode : List ℕ → Option (List ℕ)) where
  staged_by-Yields :
      (m : Mount) (t : Tree)
      → IsTree t
      → IsRoomy t
      → (r : Request) → Yields IsStaged (staged_by hex_encode hex_decode m t r)
  staged_by-Yields m t w roomy (make_directory parent name mode uid gid) =
      as_staged-Yields _ (stage_mkdir-Yields m t w parent roomy name mode uid gid)
  staged_by-Yields m t w roomy (make_node parent name mode rdev uid gid) =
      as_staged-Yields _ (stage_mknod-Yields m t w parent name mode rdev uid gid)
  staged_by-Yields m t w roomy (make_symlink parent name target uid gid) =
      as_staged-Yields _
        (stage_symlink-Yields m t w parent hex_encode hex_decode name target uid gid)
  staged_by-Yields m t w roomy (make_link ino parent name) =
      as_staged-Yields _ (stage_link-Yields hex_encode m t ino parent w roomy name)
  staged_by-Yields m t w roomy (remove_name parent name dir uid preserve) =
      as_staged-Yields _ (stage_unlink-Yields m t w parent name dir uid preserve)
  staged_by-Yields m t w roomy (reap_inode ino) = stage_reap-Yields m t w ino
  staged_by-Yields m t w roomy (rename_name p a q b policy) =
      stage_rename-Yields m t w roomy p a q b policy

  -- One operation keeps the tree well formed, whether it succeeds or fails, if link counts have room
  -- and recovery returns only well-formed trees.
  pub perform-IsTree :
      (m : Mount) (t : Tree)
      → IsTree t
      → IsRoomy t
      → ((u : Tree) → m.recover ≡ ok u → IsTree u)
      → (r : Request) → IsTree (perform hex_encode hex_decode m t r)
  unfolding mkdir mknod symlink_at link_at unlink reap_unlinked_inode rename
  perform-IsTree m t w roomy rec (make_directory parent name mode uid gid) =
      after-IsTree m t w rec _ _
        (settle-IsTree m t w rec _ (stage_mkdir-Yields m t w parent roomy name mode uid gid))
  perform-IsTree m t w roomy rec (make_node parent name mode rdev uid gid) =
      after-IsTree m t w rec _ _ (
        mknod_finish-IsTree m t w rec parent _
          (stage_mknod-Yields m t w parent name mode rdev uid gid))
  perform-IsTree m t w roomy rec (make_symlink parent name target uid gid) =
      after-IsTree m t w rec _ _ (
        settle-IsTree m t w rec _
          (stage_symlink-Yields m t w parent hex_encode hex_decode name target uid gid))
  perform-IsTree m t w roomy rec (make_link ino parent name) =
      after-IsTree m t w rec _ _
        (settle-IsTree m t w rec _ (stage_link-Yields hex_encode m t ino parent w roomy name))
  perform-IsTree m t w roomy rec (remove_name parent name dir uid preserve) =
      after-IsTree m t w rec _ _
        (settle-IsTree m t w rec _ (stage_unlink-Yields m t w parent name dir uid preserve))
  perform-IsTree m t w roomy rec (reap_inode ino) =
      reap_settled-IsTree m t w rec _ (stage_reap-Yields m t w ino)
  perform-IsTree m t w roomy rec (rename_name p a q b policy) =
      rename_settled-IsTree m t w rec p a q b _ (stage_rename-Yields m t w roomy p a q b policy)

  known_trees :
      {first t : Tree} {known : List Tree}
      → IsTree first
      → History hex_encode hex_decode first t known
      → IsTree t × All IsTree known
  known_trees w begin = (w, (w, tt))
  known_trees w (next {t = t} {known = known} h m r roomy recovers) =
      let (now, before) = known_trees w h in
      let more =
        handed-All (staged_by hex_encode hex_decode m t r) _ (staged_by-Yields m t now roomy r)
          before in
      let here = perform-IsTree m t now roomy (λ u e. All-Among IsTree _ u more (recovers u e)) r in
      (here, (here, more))

  -- Every tree that operations reach from a well-formed one is well formed, whichever of them fail and
  -- wherever: names and numbers are unique, entries name inodes that exist, link counts are the
  -- numbers of names, and each directory but the root has one name. Link counts have room, and what
  -- recovery reads from the devices was handed to a commit or in memory before.
  pub History-IsTree :
      {first t : Tree} {known : List Tree}
      → IsTree first
      → History hex_encode hex_decode first t known
      → IsTree t
  History-IsTree w h = (known_trees w h).0
