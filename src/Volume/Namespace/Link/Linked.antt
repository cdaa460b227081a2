-- ===== src/Volume/Namespace/Link/Linked.antt =====
-- A staged hard link leaves a well-formed tree.
use argos_fs.Common.Map.{nat_key, get, put-IsMap}
use argos_fs.Common.Bytes.{bytes_key}
use argos_fs.Common.Word.{u32_max}
use argos_fs.Common.{
  ℕ, ◌<◌, ◌≡◌, refl, sym, ap, ◌∙◌, subst, true, false, List, none, some, ◌==◌, ==_iff, if_cases,
  arith,
}
use argos_fs.Error.{ok_or, not_found, fail_if, unsupported, Yields, >>=-Yields}
use argos_fs.Security.Acl.{is_directory}
use argos_fs.Volume.Commit.{Mount, ensure_block_backend_writable}
use argos_fs.Volume.Names.{entry_name_from_os}
use argos_fs.Volume.Namespace.{vacant_in}
use argos_fs.Volume.Namespace.Collapse.{
  found_there, found_elsewhere, insert_node-insert_node, insert_node_swap, update_node-found,
  update_dir-found, vacant_in-ok,
}
use argos_fs.Volume.Namespace.Create.Entered.{IsRoomy}
use argos_fs.Volume.Namespace.Link.{one_more_at, checked_quotas, stage_link}
use argos_fs.Volume.Tree.{
  Name, Node, Tree, find_node, insert_node, update_node, add_name, touched, touch_inode,
}
use argos_fs.Volume.Tree.Rewire.Nodes.{replaced2-IsTree}
use argos_fs.Volume.Tree.Sums.{one, names-add_name, subdirs-add_name}
use argos_fs.Volume.Tree.WellFormed.{IsTree}

module _ (hex_encode : List ℕ → List ℕ) (m : Mount) (t : Tree) (w : IsTree t) (ino : ℕ) (parent : ℕ)
    (name : Name) (p c : Node) (found : find_node parent t ≡ some p)
    (dir : is_directory p.kind ≡ true) (free : get name p.entries ≡ none)
    (found_c : find_node ino t ≡ some c) (file : is_directory c.kind ≡ false)
    (room : c.nlink < u32_max) where
  abbrev named : Node
  named = add_name name ino p

  abbrev p' : Node
  p' = touched true true m.now named

  abbrev c' : Node
  c' = one_more_at hex_encode m t ino parent c

  apart : (parent == ino) ≡ false
  apart = ground (arith, found, found_c, dir, file, ==_iff parent ino)

  pub staged_as :
      touch_inode parent true true m.now
        (update_node ino (one_more_at hex_encode m t ino parent) (insert_node parent named t))
      ≡ insert_node ino c' (insert_node parent p' t)
  unfolding touch_inode
  staged_as =
      let there = found_there parent named t in
      let a =
        update_node-found ino (one_more_at hex_encode m t ino parent) (insert_node parent named t) c
          (found_elsewhere parent ino named c t apart found_c) in
      let back : (ino == parent) ≡ false =
        ground (arith, apart, ==_iff parent ino, ==_iff ino parent) in
      let b =
        update_node-found parent (touched true true m.now)
          (insert_node ino c' (insert_node parent named t)) named
          (found_elsewhere ino parent c' named (insert_node parent named t) back there) in
      let d = insert_node_swap parent ino p' c' named (insert_node parent named t) apart there in
      rw a (b ∙ d ∙ ap (insert_node ino c') (insert_node-insert_node parent p' named t))

  pub linked-IsTree : IsTree (insert_node ino c' (insert_node parent p' t))
  linked-IsTree =
      replaced2-IsTree t w parent ino p p' c c' found found_c apart (λ x. 0) (λ x. one x ino)
        (λ x. ground (arith, names-add_name x ino name p, free))
        (λ x d. ground (arith, d, found_c, file, ==_iff ino x))
        (λ x e. ground (arith, e, found_c, ==_iff ino x)) (λ x a b. ground (arith, b))
        (λ r' e. record {
          kind = refl;
          entry_keys = put-IsMap name ino p.entries (w.entry_keys parent p found);
          leaf = λ f. absurd (ground (arith, f, dir));
          file_links = λ f. absurd (ground (arith, f, dir));
          dir_links = λ d. ground (arith, subdirs-add_name t ino name p, free, found_c, file);
        })
        (λ r' e. record {
          kind = refl;
          entry_keys = w.entry_keys ino c found_c;
          leaf = w.leaves ino c found_c;
          file_links = λ f. ground (arith, room, e, ==_iff ino ino);
          dir_links = λ d. absurd (ground (arith, d, file));
        })

module _ (hex_encode : List ℕ → List ℕ) (m : Mount) (t : Tree) (ino parent : ℕ) where
  checked_quotas-Yields :
      (P : Tree → Type 0) (s : Tree) → P s → Yields P (checked_quotas hex_encode m t ino parent s)
  checked_quotas-Yields P s h =
      if_cases (Yields P) m.has_directory_quotas
        (λ y. >>=-Yields P (m.validate_quotas s) _ (λ _ _. h)) (λ z. h)

  pub stage_link-Yields :
      IsTree t
      → IsRoomy t
      → (new_name : List ℕ) → Yields IsTree (stage_link hex_encode m t ino parent new_name)
  unfolding stage_link
  stage_link-Yields w roomy new_name =
      >>=-Yields IsTree (entry_name_from_os hex_encode new_name) _ (λ name _.
        >>=-Yields IsTree (ensure_block_backend_writable m) _ (λ _ _.
          >>=-Yields IsTree (ok_or (find_node ino t) not_found) _ (λ c g.
            >>=-Yields IsTree (vacant_in parent name t) _ (λ p e.
              >>=-Yields IsTree (fail_if (is_directory c.kind) unsupported) _ (λ _ f.
                let (found, dir, free) = vacant_in-ok parent name t p e in
                let found_c : find_node ino t ≡ some c = ground (arith, g) in
                let file : is_directory c.kind ≡ false = ground (arith, f) in
                let room = roomy ino c found_c in
                let s =
                  staged_as hex_encode m t w ino parent name p c found dir free found_c file room in
                let done =
                  linked-IsTree hex_encode m t w ino parent name p c found dir free found_c file
                    room in
                rw (update_dir-found parent (add_name name ino) t p found dir)
                  (checked_quotas-Yields IsTree _ (subst IsTree (sym s) done)))))))
