-- ===== src/Scheduler/Queue/Push.antt =====
-- `task_queue_push` of queue.c appends a task to the queue.
use zenith_os.Prelude.{
  ℕ, zero, suc, ◌≤◌, ◌<◌, ◌≡◌, refl, ◌∙◌, ◌≢◌, false, Option, some, List, [], ◌∷◌, ◌++◌, arith,
  eq→==, ne→==, length,
}
use zenith_os.Scheduler.Queue.{Ptr, null, Links, link, link_last, queue_push}
use zenith_os.Scheduler.Queue.Chain.{has, Distinct, Chain, Chain-link}

-- What the walk from `p` has done: the task stands behind the tasks `xs` that followed `p`.
record Linked (l : Links) (p t : Ptr) (xs : List Ptr) (o : Option Links) : Type 0 where
  links : Links
  returns : o ≡ some links
  chain : Chain links (links p) (xs ++ (t ∷ []))
  same : (a : Ptr) → has a (p ∷ xs) ≡ false → links a ≡ l a

link_last-Linked :
    (fuel : ℕ) (l : Links) (p t : Ptr) (xs : List Ptr)
    → Chain l (l p) xs
    → Distinct (p ∷ xs)
    → has t (p ∷ xs) ≡ false
    → l t ≡ null
    → t ≢ null
    → length xs < fuel
    → Linked l p t xs (link_last fuel l p t)
unfolding link_last link
link_last-Linked zero l p t xs c d out end ne k = absurd (omega arith)
link_last-Linked (suc fuel) l p t [] c d out end ne k =
    rw (eq→== (l p) null c) record {
      links = link l p t;
      returns = refl;
      chain = ground arith;
      same = λ a h. ground arith;
    }
link_last-Linked (suc fuel) l p t (x ∷ xs) (e, nn, c) d out end ne k =
    let rest = link_last-Linked fuel l x t xs c d.1 (ground arith) end ne (omega arith) in
    rw (ne→== (l p) null (omega arith)) (
      rw e record {
        links = rest.links;
        returns = rest.returns;
        chain = (rest.same p d.0 ∙ e, nn, rest.chain);
        same = λ a h. rest.same a (ground arith);
      })

-- For a task that is not in the queue, with fuel for the length of the queue, `task_queue_push`
-- returns, the queue is the old one with the task behind it, and no link but those of the queue and of the task is written.
pub queue_push-Chain :
    (fuel : ℕ) (l : Links) (head t : Ptr) (xs : List Ptr)
    → Chain l head xs
    → Distinct xs
    → has t xs ≡ false
    → t ≢ null
    → length xs ≤ fuel
    → (l' : Links) × (head' : Ptr) × (queue_push fuel l head t ≡ some (l', head'))
      × Chain l' head' (xs ++ (t ∷ []))
      × ((a : Ptr) → has a (t ∷ xs) ≡ false → l' a ≡ l a)
unfolding queue_push link
queue_push-Chain fuel l head t [] c d out ne k = (
  link l t null,
  t,
  rw (ne→== t null ne, eq→== head null c),
  (refl, ne, ground arith),
  λ a h. ground arith,
)
queue_push-Chain fuel l head t (x ∷ xs) (e, nn, c) d out ne k =
    let l1 = link l t null in
    let next : l1 x ≡ l x = ground arith in
    let rest : Chain l1 (l1 x) xs = rw next (Chain-link l (l x) t null xs (ground arith) c) in
    let walk = link_last-Linked fuel l1 x t xs rest d out (ground arith) ne (omega arith) in
    let returns : link_last fuel l1 head t ≡ some walk.links = rw e walk.returns in
    (
      walk.links,
      head,
      rw (ne→== t null ne, ne→== head null (omega arith), returns),
      (e, nn, walk.chain),
      λ a h. walk.same a (ground arith) ∙ ground arith,
    )
