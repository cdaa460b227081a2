-- ===== src/Volume/Namespace/Rename/Staged.antt =====
-- A staged rename leaves a well-formed tree.
use argos_fs.Common.Map.{nat_key, get}
use argos_fs.Common.Bytes.{bytes_key, same_bytes}
use argos_fs.Common.{ℕ, ◌≡◌, subst, ◌&&◌, not, Option, none, some, if◌then◌else◌, if_cases, arith}
use argos_fs.Error.{
  ok_or, not_found, invalid, already_exists, fail_if, Yields, Yields-map, >>=-Yields,
}
use argos_fs.Security.Acl.{is_directory}
use argos_fs.Volume.Commit.{Mount, ensure_block_backend_writable}
use argos_fs.Volume.Names.{validate_entry_name}
use argos_fs.Volume.Namespace.{check_sticky, is_some}
use argos_fs.Volume.Namespace.Collapse.{dir_inode-ok}
use argos_fs.Volume.Namespace.Create.Entered.{IsRoomy}
use argos_fs.Volume.Namespace.Rename.{
  RenamePolicy, contains_inode, is_child, same_parent, stage_exchange, stage_move, stage_rename,
}
use argos_fs.Volume.Namespace.Rename.Exchanged.{stage_exchange-Yields}
use argos_fs.Volume.Namespace.Rename.Moved.{IsMoved}
use argos_fs.Volume.Tree.{Name, Tree, find_node, dir_inode}
use argos_fs.Volume.Tree.WellFormed.{IsTree}
use argos_fs.Volume.Namespace.Rename.Detached.{stage_move-Yields}

-- The staged tree, if there is one.
abbrev pub IsStaged : Option Tree → Type 0
IsStaged none = Unit
IsStaged (some s) = IsTree s

module _ (m : Mount) (t : Tree) (w : IsTree t) (roomy : IsRoomy t) (p : ℕ) (a : Name) (q : ℕ)
    (b : Name) where
  pub stage_rename-Yields :
      (policy : RenamePolicy) → Yields IsStaged (stage_rename m t p a q b policy)
  unfolding stage_rename
  stage_rename-Yields policy = >>=-Yields IsStaged (validate_entry_name a) _ (λ _ _.
      >>=-Yields IsStaged (validate_entry_name b) _ (λ _ _.
        >>=-Yields IsStaged (fail_if (policy.no_replace && policy.exchange) invalid) _ (λ _ _.
          if_cases (Yields IsStaged)
            (same_parent m t p a q b && same_bytes a b && not policy.exchange) (λ y. tt)
            (λ _. >>=-Yields IsStaged (dir_inode p t) _ (λ dir_a d.
              >>=-Yields IsStaged (ok_or (get a dir_a.entries) not_found) _ (λ child g.
                >>=-Yields IsStaged (ok_or (find_node child t) not_found) _ (λ c h.
                  >>=-Yields IsStaged (dir_inode q t) _ (λ dir_b f.
                    >>=-Yields IsStaged (check_sticky t p child policy.uid) _ (λ _ _.
                      >>=-Yields IsStaged
                        (fail_if (is_directory c.kind && contains_inode t child q) invalid) _
                        (λ _ _.
                          >>=-Yields IsStaged
                            (fail_if (policy.no_replace && is_some (get b dir_b.entries))
                              already_exists)
                            _
                            (λ _ _.
                              if_cases (Yields IsStaged)
                                (is_child child (get b dir_b.entries) && not policy.exchange)
                                (λ y. tt)
                                (λ k.
                                  >>=-Yields IsStaged (ensure_block_backend_writable m) _ (λ _ _.
                                    let (found_p, is_p) = dir_inode-ok p t dir_a d in
                                    let (found_q, is_q) = dir_inode-ok q t dir_b f in
                                    let named_a : get a dir_a.entries ≡ some child =
                                      ground (arith, g) in
                                    let found_c : find_node child t ≡ some c = ground (arith, h) in
                                    >>=-Yields IsStaged
                                      (if policy.exchange
                                        then stage_exchange m t p a q b policy child c
                                            (get b dir_b.entries)
                                        else stage_move m t p a q b policy child c
                                            (get b dir_b.entries))
                                      _
                                      (λ s i. subst (Yields IsTree) i (
                                        if_cases (Yields IsTree) policy.exchange
                                          (λ _.
                                            stage_exchange-Yields m t w roomy p a q b dir_a dir_b
                                              child c found_p is_p found_q is_q named_a found_c
                                              policy)
                                          (λ n.
                                            Yields-map {P = IsMoved p a q b child} {Q = IsTree}
                                              (λ s h. h.0) _
                                              (stage_move-Yields m t w roomy p a q b dir_a dir_b
                                                child c found_p is_p found_q is_q named_a found_c
                                                policy (ground (arith, k, n)))))))))))))))))))
