-- ===== src/Volume/Namespace/Rename/Detached.antt =====
-- The staged move of a name: the replaced inode loses its name, and the child moves.
use argos_fs.Common.Map.{nat_key, get, del, get-del, put-del}
use argos_fs.Common.Bytes.{bytes_key}
use argos_fs.Common.Word.{u32_max}
use argos_fs.Common.{
  ℕ, ◌<◌, ◌≡◌, refl, ap, ◌∙◌, subst, inl, inr, Bool, true, false, ◌&&◌, not, List, [], ◌∷◌, Option,
  none, some, ◌==◌, ==_iff, if◌then◌else◌, Bool-cases, if_cases, arith,
}
use argos_fs.Error.{ok, ◌>>=◌, ok_or, not_found, Yields, >>=-Yields, >>=-eq-ok, ok-injective}
use argos_fs.Security.Acl.{is_directory}
use argos_fs.Volume.Commit.{Mount}
use argos_fs.Volume.Namespace.{check_sticky, is_some, one_less_dir}
use argos_fs.Volume.Namespace.Collapse.{
  found_there, insert_node-insert_node, update_node-found, update_dir-found,
}
use argos_fs.Volume.Namespace.Create.Entered.{IsRoomy}
use argos_fs.Volume.Namespace.Rename.{
  RenamePolicy, is_child, move_names, check_quotas, replaceable, replaced_inode, detach, reattach,
  stage_move,
}
use argos_fs.Volume.Namespace.Rename.Moved.{Ready, IsMoved, reattach-Yields}
use argos_fs.Volume.Namespace.Rename.Touched.{touch_inode-IsTree, lookup-touch_inode}
use argos_fs.Volume.Namespace.Unlink.{is_empty, one_less_at, drop_live, drop_link}
use argos_fs.Volume.Namespace.Unlink.Removed.{file_removed}
use argos_fs.Volume.Tree.{
  Name, Node, Tree, find_node, insert_node, remove_node, update_node, drop_name, touch_inode,
}
use argos_fs.Volume.Tree.Remove.{cleared-IsTree}
use argos_fs.Volume.Tree.Sums.{find_node-insert_node, find_node-remove_node}
use argos_fs.Volume.Tree.WellFormed.{IsTree}

update_node-elsewhere :
    (i j : ℕ) (f : Node → Node) (t : Tree)
    → (i == j) ≡ false
    → find_node j (update_node i f t) ≡ find_node j t
unfolding update_node
update_node-elsewhere i j f t apart = elsewhere (find_node i t)
  where
    elsewhere :
        (o : Option Node)
        → find_node j (elim o [ none ↦ t | some n ↦ insert_node i (f n) t ]) ≡ find_node j t
    elsewhere none = refl
    elsewhere (some n) = ground (arith, find_node-insert_node i j (f n) t, apart)

-- Other inodes are found as before.
drop_link-elsewhere :
    (m : Mount) (t s : Tree) (preserve : Bool) (child j : ℕ)
    → (child == j) ≡ false
    → find_node j (drop_link m t preserve child s) ≡ find_node j s
drop_link-elsewhere m t s preserve child j apart = live (find_node child s)
  where
    live : (o : Option Node) → find_node j (drop_live m t preserve child s o) ≡ find_node j s
    live none = refl
    live (some n) =
        let kept = update_node-elsewhere child j (one_less_at m t) s apart in
        if_cases (λ u. find_node j u ≡ find_node j s)
          ((one_less_at m t n).nlink == 0 && not preserve)
          (λ y. ground (
            arith,
            find_node-remove_node child j (update_node child (one_less_at m t) s),
            apart,
            kept,
          ))
          (λ n. kept)

put_del_node :
    (i j : ℕ) (n : Node) (t : Tree)
    → (j == i) ≡ false
    → insert_node i n (remove_node j t) ≡ remove_node j (insert_node i n t)
put_del_node i j n t apart = ap (λ l. record t { inodes = l }) (put-del i j n t.inodes apart)

module _ (m : Mount) (t : Tree) (w : IsTree t) (roomy : IsRoomy t) (p : ℕ) (a : Name) (q : ℕ)
    (b : Name) (dir_a dir_b : Node) (child : ℕ) (c : Node) (found_p : find_node p t ≡ some dir_a)
    (is_p : is_directory dir_a.kind ≡ true) (found_q : find_node q t ≡ some dir_b)
    (is_q : is_directory dir_b.kind ≡ true) (named_a : get a dir_a.entries ≡ some child)
    (found_c : find_node child t ≡ some c) where
  abbrev IsReady : Tree → Type 0
  IsReady s = Ready s p a q b child (is_directory c.kind)

  nothing_detached : get b dir_b.entries ≡ none → IsReady t
  nothing_detached free = record {
    tree = w;
    from = dir_a;
    found_from = found_p;
    is_from = is_p;
    named = named_a;
    to = dir_b;
    found_to = found_q;
    is_to = is_q;
    free = free;
    room = roomy q dir_b found_q;
    is_child = ground (arith, found_c);
  }

  module _ (e : ℕ) (inode : Node) (named_b : get b dir_b.entries ≡ some e)
      (found_e : find_node e t ≡ some inode) (differ : (e == child) ≡ false)
      (empty : inode.entries ≡ []) where
    abbrev dropped : Node
    dropped = drop_name b dir_b

    -- The replaced inode has no entries, and both parents have.
    not_new : (e == q) ≡ false
    unfolding get
    not_new = elim (Bool-cases (e == q)) [
      | inl y ↦
          let i : e ≡ q = (==_iff e q).0 y in
          let same : inode ≡ dir_b = ground (arith, i, found_e, found_q) in
          let nothing : get b dir_b.entries ≡ none = rw⁻¹ same (rw empty refl) in cc
      | inr z ↦ z
    ]

    not_old : (e == p) ≡ false
    unfolding get
    not_old = elim (Bool-cases (e == p)) [
      | inl y ↦
          let i : e ≡ p = (==_iff e p).0 y in
          let same : inode ≡ dir_a = ground (arith, i, found_e, found_p) in
          let nothing : get a dir_a.entries ≡ none = rw⁻¹ same (rw empty refl) in cc
      | inr z ↦ z
    ]

    ready :
        (s : Tree) (to : Node)
        → IsTree s
        → ((j : ℕ) → (e == j) ≡ false → find_node j s ≡ (if q == j then some to else find_node j t))
        → to.kind ≡ dir_b.kind
        → to.entries ≡ del b dir_b.entries
        → to.nlink < u32_max
        → IsReady s
    ready s to tree rest kind entries room = elim (Bool-cases (q == p)) [
      | inl y ↦
          let i : q ≡ p = (==_iff q p).0 y in
          let same : dir_b ≡ dir_a = ground (arith, i, found_q, found_p) in
          let named_here : get a dir_b.entries ≡ some child = rw same named_a in
          record {
            tree = tree;
            from = to;
            found_from = ground (arith, rest p not_old, y);
            is_from = cc;
            named = rw entries (
                ground (
                  arith,
                  get-del a b dir_b.entries,
                  named_here,
                  bytes_key.same_iff b a,
                  named_b,
                  differ,
                ));
            to = to;
            found_to = ground (arith, rest q not_new, ==_iff q q);
            is_to = cc;
            free = rw entries (ground (arith, get-del b b dir_b.entries, bytes_key.same_iff b b));
            room = room;
            is_child = ground (arith, rest child differ, found_c, ==_iff q child, found_q, kind);
          }
      | inr z ↦ record {
        tree = tree;
        from = dir_a;
        found_from = ground (arith, rest p not_old, z, found_p);
        is_from = is_p;
        named = named_a;
        to = to;
        found_to = ground (arith, rest q not_new, ==_iff q q);
        is_to = cc;
        free = rw entries (ground (arith, get-del b b dir_b.entries, bytes_key.same_iff b b));
        room = room;
        is_child = ground (arith, rest child differ, found_c, ==_iff q child, found_q, kind);
      }
    ]

    abbrev base : Tree
    base = insert_node q dropped t

    directory_detached :
        is_directory inode.kind ≡ true → IsReady (update_node q one_less_dir (remove_node e base))
    directory_detached d =
        let there : find_node q (remove_node e base) ≡ some dropped =
          ground (arith, find_node-remove_node e q base, not_new, found_there q dropped t) in
        let lower : Node = one_less_dir dropped in
        let collapsed : update_node q one_less_dir (remove_node e base)
            ≡ remove_node e (insert_node q lower t) =
          update_node-found q one_less_dir (remove_node e base) dropped there
          ∙ put_del_node q e lower base not_new
          ∙ ap (remove_node e) (insert_node-insert_node q lower dropped t) in
        rw collapsed (
          ready (remove_node e (insert_node q lower t)) lower
            (cleared-IsTree t w q dir_b b e inode found_q is_q named_b found_e d empty lower refl
              refl refl)
            (λ j h. ground (
              arith,
              find_node-remove_node e j (insert_node q lower t),
              h,
              find_node-insert_node q j lower t,
            ))
            refl refl (ground (arith, roomy q dir_b found_q)))

    file_detached :
        (preserve : Bool)
        → is_directory inode.kind ≡ false
        → IsReady (drop_link m t preserve e base)
    file_detached preserve f =
        ready (drop_link m t preserve e base) dropped
          (file_removed m t w q b e dir_b inode found_q is_q named_b found_e dropped refl refl refl
            f preserve)
          (λ j h. drop_link-elsewhere m t base preserve e j h ∙ find_node-insert_node q j dropped t)
          refl refl (roomy q dir_b found_q)

    pub detached-Yields :
        (policy : RenamePolicy) → Yields IsReady (detach m t p a q b policy (some (e, inode)))
    unfolding detach
    detached-Yields policy = rw (update_dir-found q (drop_name b) t dir_b found_q is_q) (
        if_cases IsReady (is_directory inode.kind) (λ y. directory_detached y)
          (λ n. file_detached policy.preserve_replaced_inode n))

  -- What may be replaced has no entries.
  replaceable-empty :
      (child e : Node)
      → (is_directory e.kind ≡ false → e.entries ≡ [])
      → replaceable m t p a q b child e ≡ ok tt
      → e.entries ≡ []
  unfolding replaceable
  replaceable-empty child e leaf h = elim (Bool-cases (is_directory e.kind)) [
    | inl y ↦ emptied e.entries (ground (arith, h, y))
    | inr n ↦ leaf n
  ]
    where
      emptied : (l : List (Name × ℕ)) → is_empty l ≡ true → l ≡ []
      emptied [] i = refl
      emptied (x ∷ l) i = absurd (ground (arith, i))

  -- The tree in which the name can move.
  detach_found :
      (policy : RenamePolicy) (existing : Option ℕ)
      → get b dir_b.entries ≡ existing
      → is_child child existing ≡ false
      → Yields IsReady (replaced_inode m t p a q b policy c existing >>= detach m t p a q b policy)
  unfolding replaced_inode detach
  detach_found policy none h k = nothing_detached h
  detach_found policy (some e) h k =
      >>=-Yields IsReady (replaced_inode m t p a q b policy c (some e)) (detach m t p a q b policy)
        (λ found g.
          let (u, _, g1) = >>=-eq-ok (check_sticky t q e policy.uid) _ g in
          let (inode, i, g2) = >>=-eq-ok (ok_or (find_node e t) not_found) _ g1 in
          let (v, r, g3) = >>=-eq-ok (replaceable m t p a q b c inode) _ g2 in
          let found_e : find_node e t ≡ some inode = ground (arith, i) in
          let empty = replaceable-empty c inode (λ f. w.leaves e inode found_e f) r in
          subst (λ o. Yields IsReady (detach m t p a q b policy o)) (ok-injective g3)
            (detached-Yields e inode h found_e k empty policy))

  -- Touching inodes changes no name.
  touched-IsMoved :
      (i : ℕ) (x y : Bool) (u : Tree)
      → IsMoved p a q b child u
      → IsMoved p a q b child (touch_inode i x y m.now u)
  touched-IsMoved i x y u (h, new, old) = (
    touch_inode-IsTree i x y m.now u h,
    lookup-touch_inode q b i x y m.now u ∙ new,
    lookup-touch_inode p a i x y m.now u ∙ old,
  )

  pub stage_move-Yields :
      (policy : RenamePolicy)
      → is_child child (get b dir_b.entries) ≡ false
      → Yields (IsMoved p a q b child) (stage_move m t p a q b policy child c (get b dir_b.entries))
  unfolding stage_move
  stage_move-Yields policy k =
      let P = IsMoved p a q b child in
      let existing = get b dir_b.entries in
      >>=-Yields P (replaced_inode m t p a q b policy c existing) _ (λ replaced g.
        >>=-Yields P (check_quotas m t p a q b (move_names m t p a q b (is_some existing) child)) _
          (λ _ _. >>=-Yields P (detach m t p a q b policy replaced) _ (λ s h.
            >>=-Yields P (reattach m t p a q b child (is_directory c.kind) s) _ (λ v i.
              let detached : IsReady s = subst (Yields IsReady) h (
                subst (λ r. Yields IsReady (r >>= detach m t p a q b policy)) g
                  (detach_found policy existing refl k)) in
              let moved : P v =
                subst (Yields P) i
                  (reattach-Yields m t s p a b child (is_directory c.kind) q detached) in
              touched-IsMoved child false true _
                (touched-IsMoved q true true _ (touched-IsMoved p true true v moved))))))
