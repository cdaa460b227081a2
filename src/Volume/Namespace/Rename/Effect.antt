-- ===== src/Volume/Namespace/Rename/Effect.antt =====
-- What a rename does to the names.
use argos_fs.Common.Map.{nat_key, get}
use argos_fs.Common.Bytes.{bytes_key, same_bytes}
use argos_fs.Common.{
  ℕ, ◌≡◌, refl, subst, inl, inr, true, false, ◌&&◌, not, Option, none, some, ==_iff, if◌then◌else◌,
  Bool-cases, if_cases, arith,
}
use argos_fs.Error.{ok, ok_or, not_found, invalid, already_exists, fail_if, Yields, >>=-Yields}
use argos_fs.Security.Acl.{is_directory}
use argos_fs.Volume.Commit.{Mount, ensure_block_backend_writable}
use argos_fs.Volume.Names.{validate_entry_name}
use argos_fs.Volume.Namespace.{check_sticky, is_some}
use argos_fs.Volume.Namespace.Collapse.{dir_inode-ok}
use argos_fs.Volume.Namespace.Create.Entered.{IsRoomy}
use argos_fs.Volume.Namespace.Rename.{
  RenamePolicy, contains_inode, is_child, same_parent, stage_exchange, stage_move, stage_rename,
}
use argos_fs.Volume.Namespace.Rename.Moved.{IsMoved}
use argos_fs.Volume.Tree.{Name, Tree, find_node, dir_inode}
use argos_fs.Volume.Tree.WellFormed.{IsTree, lookup}
use argos_fs.Volume.Namespace.Rename.{rename, rename_settled}
use argos_fs.Volume.Commit.{Outcome, commit}
use argos_fs.Volume.Namespace.{after}
use argos_fs.Common.{sym}
use argos_fs.Error.{is_ok, err, Result}
use argos_fs.Volume.Namespace.Create.Found.{commit_with_previous-ok}
use argos_fs.Volume.Namespace.Rename.Detached.{stage_move-Yields}

commit-ok : (m : Mount) (s : Tree) → is_ok (commit m s).0 ≡ true → (commit m s).1 ≡ s
unfolding commit
commit-ok m s h = commit_with_previous-ok m none s h

module _ (m : Mount) (t : Tree) (w : IsTree t) (roomy : IsRoomy t) (p : ℕ) (a : Name) (q : ℕ)
    (b : Name) (child : ℕ) (policy : RenamePolicy) (leads : lookup p a t ≡ some child)
    (elsewhere : is_child child (lookup q b t) ≡ false) (moves : policy.exchange ≡ false) where
  abbrev HasMoved : Option Tree → Type 0
  HasMoved none = ⊥
  HasMoved (some s) = IsMoved p a q b child s

  -- Equal names of one directory lead to one inode.
  different : (same_parent m t p a q b && same_bytes a b) ≡ false
  different = elim (Bool-cases (same_parent m t p a q b && same_bytes a b)) [
    | inr z ↦ z
    | inl y ↦
        let i : p ≡ q = (==_iff p q).0 (ground (arith, y)) in
        let j : a ≡ b = (bytes_key.same_iff a b).0 (ground (arith, y)) in
        let there : lookup q b t ≡ some child =
          subst (λ q. lookup q b t ≡ some child) i
            (subst (λ b. lookup p b t ≡ some child) j leads) in
        ground (arith, elsewhere, there, ==_iff child child)
  ]

  stage_rename-HasMoved : Yields HasMoved (stage_rename m t p a q b policy)
  unfolding stage_rename
  stage_rename-HasMoved = >>=-Yields HasMoved (validate_entry_name a) _ (λ _ _.
      >>=-Yields HasMoved (validate_entry_name b) _ (λ _ _.
        >>=-Yields HasMoved (fail_if (policy.no_replace && policy.exchange) invalid) _ (λ _ _.
          if_cases (Yields HasMoved)
            (same_parent m t p a q b && same_bytes a b && not policy.exchange)
            (λ y. absurd (ground (arith, y, different)))
            (λ _. >>=-Yields HasMoved (dir_inode p t) _ (λ dir_a d.
              >>=-Yields HasMoved (ok_or (get a dir_a.entries) not_found) _ (λ x g.
                >>=-Yields HasMoved (ok_or (find_node x t) not_found) _ (λ c h.
                  >>=-Yields HasMoved (dir_inode q t) _ (λ dir_b f.
                    >>=-Yields HasMoved (check_sticky t p x policy.uid) _ (λ _ _.
                      >>=-Yields HasMoved
                        (fail_if (is_directory c.kind && contains_inode t x q) invalid) _
                        (λ _ _.
                          let (found_p, is_p) = dir_inode-ok p t dir_a d in
                          let (found_q, is_q) = dir_inode-ok q t dir_b f in
                          let named : get a dir_a.entries ≡ some x = ground (arith, g) in
                          let found_c : find_node x t ≡ some c = ground (arith, h) in
                          let same : x ≡ child = ground (arith, leads, found_p, named) in
                          let free : is_child x (get b dir_b.entries) ≡ false =
                            ground (arith, elsewhere, found_q, same) in
                          >>=-Yields HasMoved
                            (fail_if (policy.no_replace && is_some (get b dir_b.entries))
                              already_exists)
                            _
                            (λ _ _.
                              if_cases (Yields HasMoved)
                                (is_child x (get b dir_b.entries) && not policy.exchange)
                                (λ y. absurd (ground (arith, y, free)))
                                (λ _.
                                  >>=-Yields HasMoved (ensure_block_backend_writable m) _ (λ _ _.
                                    >>=-Yields HasMoved
                                      (if policy.exchange
                                        then stage_exchange m t p a q b policy x c
                                            (get b dir_b.entries)
                                        else stage_move m t p a q b policy x c
                                            (get b dir_b.entries))
                                      _
                                      (λ s i.
                                        subst (λ x. IsMoved p a q b x s) same
                                          (subst (Yields (IsMoved p a q b x)) i (
                                            if_cases (Yields (IsMoved p a q b x)) policy.exchange
                                              (λ y. absurd (ground (arith, y, moves)))
                                              (λ _.
                                                stage_move-Yields m t w roomy p a q b dir_a dir_b x
                                                  c found_p is_p found_q is_q named found_c policy
                                                  free)))))))))))))))))

  settled-IsMoved :
      (r : Result (Option Tree))
      → Yields HasMoved r
      → is_ok (rename_settled m t p a q b r).0 ≡ true
      → IsMoved p a q b child (rename_settled m t p a q b r).1
  settled-IsMoved (err e) h k = absurd (ground (arith, k))
  settled-IsMoved (ok none) h k = absurd h
  settled-IsMoved (ok (some s)) h k = committed (commit m s) refl k
    where
      committed :
          (o : Outcome (Unit {0}))
          → commit m s ≡ o
          → is_ok (after o (λ u. m.rebuild_quotas u)).0 ≡ true
          → IsMoved p a q b child (after o (λ u. m.rebuild_quotas u)).1
      committed (err e, u) i j = absurd (ground (arith, j))
      committed (ok v, u) i j =
          let same : u ≡ s =
            subst (λ (o : Outcome (Unit {0})). is_ok o.0 ≡ true → o.1 ≡ s) i (commit-ok m s) refl in
          subst (IsMoved p a q b child) (sym same) h

  -- A rename without exchange that succeeds moves the name: where the old name led to the child and the
  -- new name did not, the new name leads to the child, the old one leads nowhere, and the tree is well
  -- formed, if it was and link counts have room.
  pub rename-IsMoved :
      is_ok (rename m t p a q b policy).0 ≡ true
      → IsMoved p a q b child (rename m t p a q b policy).1
  unfolding rename
  rename-IsMoved h = settled-IsMoved (stage_rename m t p a q b policy) stage_rename-HasMoved h
