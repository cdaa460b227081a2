-- ===== src/Volume/Namespace/Rename/Exchanged.antt =====
-- Two names that are exchanged leave a well-formed tree.
use argos_fs.Common.Map.{nat_key, get, get-put, put-IsMap, weight_of-le-sum}
use argos_fs.Common.Bytes.{bytes_key}
use argos_fs.Common.{
  ℕ, ◌+◌, ◌≤◌, ◌≡◌, refl, subst, inl, inr, Bool, true, false, ◌&&◌, some, ◌==◌, ==_iff, Bool-cases,
  arith,
}
use argos_fs.Error.{ok, ◌>>=◌, ok_or, not_found, invalid, fail_if, Yields, >>=-Yields}
use argos_fs.Security.Acl.{is_directory}
use argos_fs.Volume.Commit.{Mount}
use argos_fs.Volume.Namespace.{check_sticky}
use argos_fs.Volume.Namespace.Collapse.{
  found_there, found_elsewhere, insert_node-insert_node, update_dir-found,
}
use argos_fs.Volume.Namespace.Create.Entered.{IsRoomy}
use argos_fs.Volume.Namespace.Rename.{
  RenamePolicy, contains_inode, swap_names, exchanged_counts, check_quotas, stage_exchange,
}
use argos_fs.Volume.Namespace.Rename.Touched.{
  touch_inode-IsTree, traded-IsTree, lowered, raised, first_to_second, second_to_first,
}
use argos_fs.Volume.Tree.{Name, Node, Tree, find_node, insert_node, add_name}
use argos_fs.Volume.Tree.Rewire.Nodes.{replaced-IsTree}
use argos_fs.Volume.Tree.Sums.{names-add_name, dir_one, subdirs-add_name}
use argos_fs.Volume.Tree.WellFormed.{IsTree, subdirs}

-- What a directory counts for a name is in its sum.
pub dir_one-le-subdirs :
    (t : Tree) (name : Name) (n : Node) (c : ℕ)
    → get name n.entries ≡ some c
    → dir_one t c ≤ subdirs t n
dir_one-le-subdirs t name n c h = ground (arith, weight_of-le-sum (dir_one t) name n.entries, h)

module _ (m : Mount) (t : Tree) (w : IsTree t) (roomy : IsRoomy t) (p : ℕ) (a : Name) (q : ℕ)
    (b : Name) (dir_a dir_b : Node) (child existing : ℕ) (c e : Node)
    (found_p : find_node p t ≡ some dir_a) (is_p : is_directory dir_a.kind ≡ true)
    (found_q : find_node q t ≡ some dir_b) (is_q : is_directory dir_b.kind ≡ true)
    (named_a : get a dir_a.entries ≡ some child) (named_b : get b dir_b.entries ≡ some existing)
    (found_c : find_node child t ≡ some c) (found_e : find_node existing t ≡ some e) where
  abbrev child_dir : Bool
  child_dir = is_directory c.kind

  abbrev existing_dir : Bool
  existing_dir = is_directory e.kind

  abbrev new_a : Node
  new_a = add_name a existing dir_a

  abbrev new_b : Node
  new_b = add_name b child dir_b

  links_a :
      (raised existing_dir (lowered child_dir new_a)).nlink + subdirs t dir_a
      ≡ dir_a.nlink + subdirs t new_a
  links_a = ground (
    arith,
    subdirs-add_name t existing a dir_a,
    named_a,
    dir_one-le-subdirs t a dir_a child named_a,
    w.dir_links p dir_a found_p is_p,
    roomy p dir_a found_p,
    found_c,
    found_e,
  )

  links_b :
      (lowered existing_dir (raised child_dir new_b)).nlink + subdirs t dir_b
      ≡ dir_b.nlink + subdirs t new_b
  links_b = ground (
    arith,
    subdirs-add_name t child b dir_b,
    named_b,
    dir_one-le-subdirs t b dir_b existing named_b,
    w.dir_links q dir_b found_q is_q,
    roomy q dir_b found_q,
    found_c,
    found_e,
  )

  exchanged_apart :
      (p == q) ≡ false
      → Yields IsTree (
          swap_names m t p a q b child existing
          >>= (λ s. ok (exchanged_counts m t p a q b child_dir existing_dir s)))
  exchanged_apart apart = rw (update_dir-found p (add_name a existing) t dir_a found_p is_p) (
      rw
        (update_dir-found q (add_name b child) (insert_node p new_a t) dir_b
          (found_elsewhere p q new_a dir_b t apart found_q) is_q)
        (rw apart (
          rw (first_to_second m t t p a q b p q new_a new_b apart child_dir) (
            rw
              (second_to_first m t t p a q b p q (lowered child_dir new_a) (raised child_dir new_b)
                apart existing_dir)
              (traded-IsTree t w p q dir_a dir_b found_p found_q is_p is_q apart _ _ refl refl
                (put-IsMap a existing dir_a.entries (w.entry_keys p dir_a found_p))
                (put-IsMap b child dir_b.entries (w.entry_keys q dir_b found_q))
                (λ x. ground (
                  arith,
                  names-add_name x existing a dir_a,
                  named_a,
                  names-add_name x child b dir_b,
                  named_b,
                ))
                links_a links_b)))))

-- Both names in one directory.
module _ (m : Mount) (t : Tree) (w : IsTree t) (p : ℕ) (a b : Name) (dir : Node)
    (child existing : ℕ) (found : find_node p t ≡ some dir)
    (is_dir_p : is_directory dir.kind ≡ true) (named_a : get a dir.entries ≡ some child)
    (named_b : get b dir.entries ≡ some existing) where
  abbrev first : Node
  first = add_name a existing dir

  abbrev both_names : Node
  both_names = add_name b child first

  named_then : get b first.entries ≡ some existing
  named_then = ground (arith, get-put b a existing dir.entries, named_b)

  exchanged_here :
      (cd ed : Bool)
      → Yields IsTree (
          swap_names m t p a p b child existing
          >>= (λ s. ok (exchanged_counts m t p a p b cd ed s)))
  exchanged_here cd ed =
      let yes_same : (p == p) ≡ true = (==_iff p p).1 refl in
      rw (update_dir-found p (add_name a existing) t dir found is_dir_p) (
        rw
          (update_dir-found p (add_name b child) (insert_node p first t) first
            (found_there p first t) is_dir_p)
          (rw yes_same (
            rw (insert_node-insert_node p both_names first t) (
              replaced-IsTree t w p dir both_names found
                (λ x. ground (
                  arith,
                  names-add_name x existing a dir,
                  named_a,
                  names-add_name x child b first,
                  named_then,
                ))
                (record {
                  kind = refl;
                  entry_keys =
                      put-IsMap b child first.entries
                        (put-IsMap a existing dir.entries (w.entry_keys p dir found));
                  leaf = λ f. absurd (ground (arith, f, is_dir_p));
                  file_links = λ f. absurd (ground (arith, f, is_dir_p));
                  dir_links = λ d. ground (
                    arith,
                    subdirs-add_name t existing a dir,
                    named_a,
                    subdirs-add_name t child b first,
                    named_then,
                  );
                })))))

module _ (m : Mount) (t : Tree) (w : IsTree t) (roomy : IsRoomy t) (p : ℕ) (a : Name) (q : ℕ)
    (b : Name) (dir_a dir_b : Node) (child : ℕ) (c : Node) (found_p : find_node p t ≡ some dir_a)
    (is_p : is_directory dir_a.kind ≡ true) (found_q : find_node q t ≡ some dir_b)
    (is_q : is_directory dir_b.kind ≡ true) (named_a : get a dir_a.entries ≡ some child)
    (found_c : find_node child t ≡ some c) where
  exchanged :
      (existing : ℕ) (e : Node)
      → get b dir_b.entries ≡ some existing
      → find_node existing t ≡ some e
      → Yields IsTree (
          swap_names m t p a q b child existing >>= (λ s.
            ok (exchanged_counts m t p a q b (is_directory c.kind) (is_directory e.kind) s)))
  exchanged existing e named_b found_e = elim (Bool-cases (p == q)) [
    | inl y ↦
        let i : p ≡ q = (==_iff p q).0 y in
        let same : dir_b ≡ dir_a = ground (arith, i, found_p, found_q) in
        subst
          (λ q. Yields IsTree (
            swap_names m t p a q b child existing >>= (λ s.
              ok (exchanged_counts m t p a q b (is_directory c.kind) (is_directory e.kind) s))))
          i
          (exchanged_here m t w p a b dir_a child existing found_p is_p named_a
            (subst (λ n. get b n.entries ≡ some existing) same named_b) (is_directory c.kind)
            (is_directory e.kind))
    | inr z ↦
        exchanged_apart m t w roomy p a q b dir_a dir_b child existing c e found_p is_p found_q is_q
          named_a named_b found_c found_e z
  ]

  pub stage_exchange-Yields :
      (policy : RenamePolicy)
      → Yields IsTree (stage_exchange m t p a q b policy child c (get b dir_b.entries))
  unfolding stage_exchange
  stage_exchange-Yields policy =
      >>=-Yields IsTree (ok_or (get b dir_b.entries) not_found) _ (λ existing g.
        >>=-Yields IsTree (check_sticky t q existing policy.uid) _ (λ _ _.
          >>=-Yields IsTree (ok_or (find_node existing t) not_found) _ (λ e h.
            >>=-Yields IsTree (fail_if (is_directory e.kind && contains_inode t existing p) invalid)
              _
              (λ _ _.
                >>=-Yields IsTree (check_quotas m t p a q b (swap_names m t p a q b child existing))
                  _
                  (λ _ _.
                    let swapped = exchanged existing e (ground (arith, g)) (ground (arith, h)) in
                    >>=-Yields IsTree (swap_names m t p a q b child existing) _ (λ s i.
                      let counted : IsTree (
                          exchanged_counts m t p a q b (is_directory c.kind) (is_directory e.kind)
                            s) =
                        subst
                          (λ r. Yields IsTree (
                            r >>= (λ s. ok (
                              exchanged_counts m t p a q b (is_directory c.kind)
                                (is_directory e.kind) s))))
                          i swapped in
                      touch_inode-IsTree existing false true m.now _ (
                        touch_inode-IsTree child false true m.now _ (
                          touch_inode-IsTree q true true m.now _
                            (touch_inode-IsTree p true true m.now _ counted)))))))))
