-- ===== src/Volume/Namespace/Rename/Moved.antt =====
-- A name that moves leaves a well-formed tree, where the new name is free.
use argos_fs.Common.Map.{nat_key, get, get-put, get-del, put-IsMap, del-IsMap}
use argos_fs.Common.Bytes.{bytes_key}
use argos_fs.Common.Word.{u32_max}
use argos_fs.Common.{
  ℕ, ◌+◌, ◌<◌, ◌≡◌, refl, sym, subst, inl, inr, Bool, true, false, ◌&&◌, none, some, ◌==◌, ==_iff,
  Bool-cases, arith,
}
use argos_fs.Error.{Yields}
use argos_fs.Security.Acl.{is_directory}
use argos_fs.Volume.Commit.{Mount}
use argos_fs.Volume.Namespace.Collapse.{
  found_there, found_elsewhere, insert_node-insert_node, update_dir-found,
}
use argos_fs.Volume.Namespace.Rename.{reattach}
use argos_fs.Volume.Namespace.Rename.Exchanged.{dir_one-le-subdirs}
use argos_fs.Volume.Namespace.Rename.Touched.{traded-IsTree, lowered, raised, first_to_second}
use argos_fs.Volume.Tree.{Name, Node, Tree, find_node, insert_node, add_name, drop_name}
use argos_fs.Volume.Tree.Rewire.Nodes.{replaced-IsTree}
use argos_fs.Volume.Tree.Sums.{names-add_name, names-drop_name, subdirs-add_name, subdirs-drop_name}
use argos_fs.Volume.Tree.WellFormed.{IsTree, lookup, subdirs, is_dir}

-- A tree in which the name of the child can move.
pub record Ready (s : Tree) (p : ℕ) (a : Name) (q : ℕ) (b : Name) (child : ℕ) (child_dir : Bool)
    : Type 0 where
  pub tree : IsTree s
  pub from : Node
  pub found_from : find_node p s ≡ some from
  pub is_from : is_directory from.kind ≡ true
  pub named : get a from.entries ≡ some child
  pub to : Node
  pub found_to : find_node q s ≡ some to
  pub is_to : is_directory to.kind ≡ true
  pub free : get b to.entries ≡ none
  pub room : to.nlink < u32_max
  pub is_child : is_dir s child ≡ child_dir

-- The tree is well formed, and the child is under its new name and not under the old one.
abbrev pub IsMoved : ℕ → Name → ℕ → Name → ℕ → Tree → Type 0
IsMoved p a q b child u = IsTree u × (lookup q b u ≡ some child) × (lookup p a u ≡ none)

module _ (m : Mount) (t s : Tree) (p : ℕ) (a : Name) (b : Name) (child : ℕ) (child_dir : Bool) where
  module _ (q : ℕ) (r : Ready s p a q b child child_dir) (apart : (p == q) ≡ false) where
    abbrev without : Node
    without = drop_name a r.from

    abbrev with_child : Node
    with_child = add_name b child r.to

    abbrev subdir : Bool
    subdir = child_dir && true

    links_from :
        (lowered subdir without).nlink + subdirs s r.from ≡ r.from.nlink + subdirs s without
    links_from = ground (
      arith,
      subdirs-drop_name s a r.from (r.tree.entry_keys p r.from r.found_from),
      r.named,
      r.is_child,
      dir_one-le-subdirs s a r.from child r.named,
      r.tree.dir_links p r.from r.found_from r.is_from,
    )

    links_to : (raised subdir with_child).nlink + subdirs s r.to ≡ r.to.nlink + subdirs s with_child
    links_to = ground (arith, subdirs-add_name s child b r.to, r.free, r.is_child, r.room)

    abbrev moved : Tree
    moved = insert_node q (raised subdir with_child) (insert_node p (lowered subdir without) s)

    under_new : lookup q b moved ≡ some child
    under_new =
        rw (found_there q (raised subdir with_child) (insert_node p (lowered subdir without) s))
          (ground (arith, get-put b b child r.to.entries, bytes_key.same_iff b b))

    not_under_old : lookup p a moved ≡ none
    not_under_old =
        let back : (q == p) ≡ false = ground (arith, apart, ==_iff p q, ==_iff q p) in
        rw
          (found_elsewhere q p (raised subdir with_child) (lowered subdir without)
            (insert_node p (lowered subdir without) s) back
            (found_there p (lowered subdir without) s))
          (ground (arith, get-del a a r.from.entries, bytes_key.same_iff a a))

    two_parents : Yields (IsMoved p a q b child) (reattach m t p a q b child child_dir s)
    unfolding reattach
    two_parents = rw (update_dir-found p (drop_name a) s r.from r.found_from r.is_from) (
        rw
          (update_dir-found q (add_name b child) (insert_node p without s) r.to
            (found_elsewhere p q without r.to s apart r.found_to) r.is_to)
          (rw apart (
            rw (first_to_second m t s p a q b p q without with_child apart subdir) (
              (
                traded-IsTree s r.tree p q r.from r.to r.found_from r.found_to r.is_from r.is_to
                    apart _ _ refl refl
                    (del-IsMap a r.from.entries (r.tree.entry_keys p r.from r.found_from))
                    (put-IsMap b child r.to.entries (r.tree.entry_keys q r.to r.found_to))
                    (λ x. ground (
                      arith,
                      names-drop_name x a r.from (r.tree.entry_keys p r.from r.found_from),
                      r.named,
                      names-add_name x child b r.to,
                      r.free,
                    ))
                    links_from links_to,
                under_new,
                not_under_old,
              )))))

  module _ (r : Ready s p a p b child child_dir) where
    abbrev dropped : Node
    dropped = drop_name a r.from

    abbrev renamed : Node
    renamed = add_name b child dropped

    same_node : r.to ≡ r.from
    same_node = ground (arith, r.found_from, r.found_to)

    free_here : get b r.from.entries ≡ none
    free_here = subst (λ n. get b n.entries ≡ none) same_node r.free

    free_then : get b dropped.entries ≡ none
    free_then = ground (arith, get-del b a r.from.entries, free_here)

    renamed_under_new : lookup p b (insert_node p renamed s) ≡ some child
    renamed_under_new =
        rw (found_there p renamed s)
          (ground (arith, get-put b b child dropped.entries, bytes_key.same_iff b b))

    renamed_not_under_old : lookup p a (insert_node p renamed s) ≡ none
    renamed_not_under_old = rw (found_there p renamed s) (
        ground (
          arith,
          get-put a b child dropped.entries,
          get-del a a r.from.entries,
          bytes_key.same_iff a a,
          bytes_key.same_iff b a,
          free_here,
          r.named,
        ))

    one_parent : Yields (IsMoved p a p b child) (reattach m t p a p b child child_dir s)
    unfolding reattach
    one_parent =
        let keys = r.tree.entry_keys p r.from r.found_from in
        let yes_same : (p == p) ≡ true = (==_iff p p).1 refl in
        let none_moved : (child_dir && false) ≡ false = ground arith in
        rw (update_dir-found p (drop_name a) s r.from r.found_from r.is_from) (
          rw
            (update_dir-found p (add_name b child) (insert_node p dropped s) dropped
              (found_there p dropped s) r.is_from)
            (rw yes_same (
              rw none_moved (
                subst (IsMoved p a p b child) (sym (insert_node-insert_node p renamed dropped s)) (
                  (
                    replaced-IsTree s r.tree p r.from renamed r.found_from
                        (λ x. ground (
                          arith,
                          names-drop_name x a r.from keys,
                          r.named,
                          names-add_name x child b dropped,
                          free_then,
                        ))
                        (record {
                          kind = refl;
                          entry_keys =
                              put-IsMap b child dropped.entries (del-IsMap a r.from.entries keys);
                          leaf = λ f. absurd (ground (arith, f, r.is_from));
                          file_links = λ f. absurd (ground (arith, f, r.is_from));
                          dir_links = λ d. ground (
                            arith,
                            subdirs-drop_name s a r.from keys,
                            r.named,
                            subdirs-add_name s child b dropped,
                            free_then,
                          );
                        }),
                    renamed_under_new,
                    renamed_not_under_old,
                  ))))))

  pub reattach-Yields :
      (q : ℕ)
      → Ready s p a q b child child_dir
      → Yields (IsMoved p a q b child) (reattach m t p a q b child child_dir s)
  reattach-Yields q r = elim (Bool-cases (p == q)) [
    | inl y ↦
        let i : p ≡ q = (==_iff p q).0 y in
        subst (λ q. Yields (IsMoved p a q b child) (reattach m t p a q b child child_dir s)) i
          (one_parent (subst (λ q. Ready s p a q b child child_dir) (sym i) r))
    | inr z ↦ two_parents q r z
  ]
