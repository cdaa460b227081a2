-- ===== src/Volume/Namespace/Unlink/Removed.antt =====
-- A staged removal leaves a well-formed tree.
use argos_fs.Common.Map.{nat_key, get, del, del-IsMap}
use argos_fs.Common.Bytes.{bytes_key}
use argos_fs.Common.{
  ℕ, ◌≤◌, ◌≡◌, refl, sym, ◌∙◌, subst, Bool, true, false, ◌&&◌, not, List, [], ◌∷◌, Option, some,
  ◌==◌, ==_iff, if_cases, arith,
}
use argos_fs.Error.{ok, ok_or, not_found, Yields, >>=-Yields}
use argos_fs.Security.Acl.{is_directory}
use argos_fs.Volume.Commit.{Mount, ensure_block_backend_writable}
use argos_fs.Volume.Names.{validate_entry_name}
use argos_fs.Volume.Namespace.{check_sticky, one_less_dir}
use argos_fs.Volume.Namespace.Collapse.{
  found_there, found_elsewhere, update_node-insert_node, update_node-found, update_dir-found,
  dir_inode-ok,
}
use argos_fs.Volume.Namespace.Unlink.{
  one_less_at, is_empty, removable, drop_live, drop_link, removed_from, stage_unlink,
}
use argos_fs.Volume.Tree.{
  Name, Node, Tree, find_node, insert_node, remove_node, dir_inode, update_node, drop_name, touched,
  touch_inode,
}
use argos_fs.Volume.Tree.Remove.{cleared-IsTree, reaped-IsTree}
use argos_fs.Volume.Tree.Rewire.Nodes.{replaced2-IsTree}
use argos_fs.Volume.Tree.Sums.{one, names-drop_name, subdirs-drop_name, one-le-names, names-le-refs}
use argos_fs.Volume.Tree.WellFormed.{IsTree, refs}

module _ (m : Mount) (t : Tree) (w : IsTree t) (parent : ℕ) (name : Name) (child : ℕ) (p c : Node)
    (found : find_node parent t ≡ some p) (dir : is_directory p.kind ≡ true)
    (named : get name p.entries ≡ some child) (found_c : find_node child t ≡ some c) (p' : Node)
    (kind' : p'.kind ≡ p.kind) (entries' : p'.entries ≡ del name p.entries)
    (nlink' : p'.nlink ≡ p.nlink) where
  abbrev pub base : Tree
  base = insert_node parent p' t

  pub directory_removed :
      is_directory c.kind ≡ true
      → c.entries ≡ []
      → IsTree (remove_node child (update_node parent one_less_dir base))
  directory_removed d empty = rw (update_node-insert_node parent one_less_dir t p') (
      cleared-IsTree t w parent p name child c found dir named found_c d empty (one_less_dir p')
        kind' entries' (rw nlink' refl))

  module _ (file : is_directory c.kind ≡ false) where
    abbrev pub c' : Node
    c' = one_less_at m t c

    apart : (parent == child) ≡ false
    apart = ground (arith, found, found_c, dir, file, ==_iff parent child)

    -- The child has a name, so its link count is not 0.
    linked : 1 ≤ c.nlink
    linked = ground (
      arith,
      w.file_links child c found_c file,
      names-le-refs child parent t,
      found,
      one-le-names child name p,
      named,
      ==_iff child child,
    )

    abbrev pub unlinked : Tree
    unlinked = insert_node child c' base

    pub unlinked-IsTree : IsTree unlinked
    unlinked-IsTree =
        replaced2-IsTree t w parent child p p' c c' found found_c apart (λ x. one x child) (λ x. 0)
          (λ x.
            rw entries'
              (ground (arith, names-drop_name x name p (w.entry_keys parent p found), named)))
          (λ x d. ground (arith, d, found_c, file, ==_iff child x)) (λ x e. refl)
          (λ x a b. ground (arith, b))
          (λ r' e. record {
            kind = kind';
            entry_keys = rw entries' (del-IsMap name p.entries (w.entry_keys parent p found));
            leaf = λ f. absurd (ground (arith, f, dir));
            file_links = λ f. absurd (ground (arith, f, dir));
            dir_links = λ d.
                rw (nlink', entries')
                  (ground (
                    arith,
                    subdirs-drop_name t name p (w.entry_keys parent p found),
                    named,
                    found_c,
                    file,
                  ));
          })
          (λ r' e. record {
            kind = refl;
            entry_keys = w.entry_keys child c found_c;
            leaf = w.leaves child c found_c;
            file_links = λ f. ground (arith, linked, e, ==_iff child child);
            dir_links = λ d. absurd (ground (arith, d, file));
          })

    -- The number of names is the link count, so that a file with none is taken out.
    pub file_removed : (preserve : Bool) → IsTree (drop_link m t preserve child base)
    file_removed preserve =
        let there = found_elsewhere parent child p' c t apart found_c in
        let lowered = update_node-found child (one_less_at m t) base c there in
        let again = found_there child c' base in
        let gone : c'.nlink ≡ 0 → refs child unlinked ≡ 0 =
          λ z. sym (unlinked-IsTree.file_links child c' again file) ∙ z in
        subst (λ o. IsTree (drop_live m t preserve child base o)) (sym there)
          (if_cases IsTree (c'.nlink == 0 && not preserve)
            (λ y.
              subst (λ s. IsTree (remove_node child s)) (sym lowered)
                (reaped-IsTree unlinked unlinked-IsTree child c' again file
                  (gone (ground (arith, y)))))
            (λ n. subst IsTree (sym lowered) unlinked-IsTree))

module _ (m : Mount) (t : Tree) (w : IsTree t) where
  emptied :
      (dir : Bool) (c : Node)
      → removable m t dir c ≡ ok tt
      → is_directory c.kind ≡ true
      → c.entries ≡ []
  unfolding removable
  emptied true c r y = is_empty-nil c.entries (ground (arith, r))
    where
      is_empty-nil : (l : List (Name × ℕ)) → is_empty l ≡ true → l ≡ []
      is_empty-nil [] e = refl
      is_empty-nil (x ∷ l) e = absurd (ground (arith, e))
  emptied false c r y = ground (arith, r, y)

  pub stage_unlink-Yields :
      (parent : ℕ) (name : Name) (dir : Bool) (uid : Option ℕ) (preserve : Bool)
      → Yields IsTree (stage_unlink m t parent name dir uid preserve)
  unfolding stage_unlink touch_inode
  stage_unlink-Yields parent name dir uid preserve =
      >>=-Yields IsTree (validate_entry_name name) _ (λ _ _.
        >>=-Yields IsTree (dir_inode parent t) _ (λ p e.
          >>=-Yields IsTree (ok_or (get name p.entries) not_found) _ (λ child g.
            >>=-Yields IsTree (ok_or (find_node child t) not_found) _ (λ c h.
              >>=-Yields IsTree (check_sticky t parent child uid) _ (λ _ _.
                >>=-Yields IsTree (ensure_block_backend_writable m) _ (λ _ _.
                  >>=-Yields IsTree (removable m t dir c) _ (λ _ r.
                    let (found, d) = dir_inode-ok parent t p e in
                    let named : get name p.entries ≡ some child = ground (arith, g) in
                    let found_c : find_node child t ≡ some c = ground (arith, h) in
                    let p' = touched true true m.now (drop_name name p) in
                    let touches =
                      update_node-insert_node parent (touched true true m.now) t
                        (drop_name name p) in
                    rw (update_dir-found parent (drop_name name) t p found d) (
                      subst
                        (λ s.
                          IsTree (removed_from m t preserve parent child (is_directory c.kind) s))
                        (sym touches)
                        (if_cases IsTree (is_directory c.kind)
                          (λ y.
                            directory_removed m t w parent name child p c found d named found_c p'
                              refl refl refl y (emptied dir c r y))
                          (λ y.
                            file_removed m t w parent name child p c found d named found_c p' refl
                              refl refl y preserve))))))))))
