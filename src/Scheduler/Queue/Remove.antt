-- ===== src/Scheduler/Queue/Remove.antt =====
-- `task_queue_remove` of queue.c takes a task out of the queue.
use zenith_os.Prelude.{
  ℕ, zero, suc, ◌≤◌, ◌<◌, ◌≡◌, refl, ap, ◌∙◌, subst, ◌≢◌, inl, inr, true, false, Option, some, List,
  [], ◌∷◌, arith, ◌==◌, if◌then◌else◌, eq→==, ne→==, ==→eq, ==→ne, Bool-cases, length,
}
use zenith_os.Scheduler.Queue.{Ptr, null, Links, link, unlink, queue_remove}
use zenith_os.Scheduler.Queue.Chain.{has, Distinct, Chain, Chain-link}

-- The queue without the task.
abbrev pub without : Ptr → List Ptr → List Ptr
without t [] = []
without t (x ∷ xs) = if x == t then xs else x ∷ without t xs

-- What the walk from `p` has done: the task is gone from behind `p`, and its link is NULL if it was
-- there.
record Unlinked (l : Links) (p t : Ptr) (xs : List Ptr) (o : Option Links) : Type 0 where
  links : Links
  returns : o ≡ some links
  chain : Chain links (links p) (without t xs)
  cleared : has t xs ≡ true → links t ≡ null
  same : (a : Ptr) → has a (p ∷ xs) ≡ false → links a ≡ l a

unlink-Unlinked :
    (fuel : ℕ) (l : Links) (p t : Ptr) (xs : List Ptr)
    → Chain l (l p) xs
    → Distinct (p ∷ xs)
    → p ≢ t
    → length xs < fuel
    → Unlinked l p t xs (unlink fuel l p t)
unfolding unlink link
unlink-Unlinked zero l p t xs c d ne k = absurd (omega arith)
unlink-Unlinked (suc fuel) l p t [] c d ne k =
    rw (eq→== (l p) null c)
      record { links = l; returns = refl; chain = c; cleared = λ h. cc; same = λ a h. refl }
unlink-Unlinked (suc fuel) l p t (x ∷ xs) (e, nn, c) d ne k = rw (ne→== (l p) null (omega arith)) (
    rw e (elim (Bool-cases (x == t)) [
      | inl hit ↦ rw hit record {
        links = link (link l p (l t)) t null;
        returns = refl;
        chain = rw hit (
            rw (after_p hit) (
              Chain-link (link l p (l t)) (l x) t null xs (t_out hit)
                (Chain-link l (l x) p (l t) xs (ground arith) c)));
        cleared = λ h. ground arith;
        same = λ a h. ground arith;
      }
      | inr miss ↦
          let rest = unlink-Unlinked fuel l x t xs c d.1 (==→ne x t miss) (omega arith) in
          rw miss record {
            links = rest.links;
            returns = rest.returns;
            chain = rw miss (rest.same p d.0 ∙ e, nn, rest.chain);
            cleared = λ h. rest.cleared (ground arith);
            same = λ a h. rest.same a (ground arith);
          }
    ]))
  where
    t_out : (x == t) ≡ true → has t xs ≡ false
    t_out hit = subst (λ y. has y xs ≡ false) (==→eq x t hit) d.1.0

    after_p : (x == t) ≡ true → link (link l p (l t)) t null p ≡ l x
    after_p hit = ground (arith, ap l (==→eq x t hit))

-- With fuel for the length of the queue, `task_queue_remove` returns, the queue is the old one
-- without the task, whose link is NULL if it was there, and no link but those of the queue is
-- written.
pub queue_remove-Chain :
    (fuel : ℕ) (l : Links) (head t : Ptr) (xs : List Ptr)
    → Chain l head xs
    → Distinct xs
    → t ≢ null
    → length xs ≤ fuel
    → (l' : Links) × (head' : Ptr) × (queue_remove fuel l head t ≡ some (l', head'))
      × Chain l' head' (without t xs)
      × (has t xs ≡ true → l' t ≡ null)
      × ((a : Ptr) → has a xs ≡ false → l' a ≡ l a)
unfolding queue_remove link
queue_remove-Chain fuel l head t [] c d ne k =
    (l, head, rw (eq→== head null c), c, λ h. cc, λ a h. refl)
queue_remove-Chain fuel l head t (x ∷ xs) (e, nn, c) d ne k = elim (Bool-cases (x == t)) [
  | inl hit ↦
      let same : x ≡ t = ==→eq x t hit in
      let out : has t xs ≡ false = subst (λ y. has y xs ≡ false) same d.0 in
      let rest : Chain l (l t) xs = subst (λ y. Chain l (l y) xs) same c in
      (
        link l t null,
        l t,
        rw (ne→== t null ne, ne→== head null (omega arith), eq→== head t (e ∙ same)),
        rw hit (Chain-link l (l t) t null xs out rest),
        λ h. ground arith,
        λ a h. ground arith,
      )
  | inr miss ↦
      let walk = unlink-Unlinked fuel l x t xs c d (==→ne x t miss) (omega arith) in
      let e_miss : (head == t) ≡ false = rw e miss in
      let returns : unlink fuel l head t ≡ some walk.links = rw e walk.returns in
      (
        walk.links,
        head,
        rw (ne→== t null ne, ne→== head null (omega arith), e_miss, returns),
        rw miss (e, nn, walk.chain),
        λ h. walk.cleared (ground arith),
        λ a h. walk.same a h,
      )
]
