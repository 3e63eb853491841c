-- ===== src/Process/Listed.antt =====
-- About the list of processes: `process_lookup` and `process_destroy` of process.c.
use zenith_os.Prelude.{
  ℕ, zero, suc, ◌≤◌, ◌<◌, ◌==◌, if◌then◌else◌, ◌≡◌, refl, sym, ap, ◌∙◌, ◌≢◌, inl, inr, Bool, true,
  false, Option, some, List, [], ◌∷◌, length, arith, Bool-cases, eq→==, ne→==, ==→eq, ==→ne, subst,
}
use zenith_os.Scheduler.Queue.{Ptr, null, Links, link}
use zenith_os.Scheduler.Queue.Chain.{has, Distinct, Chain, Chain-link}
use zenith_os.Scheduler.Queue.Remove.{without}
use zenith_os.Process.Memory.{Info, Processes}
use zenith_os.Process.{lookup_from, process_lookup, unlink_process, unlinked, process_destroy}

abbrev pub Pids : Type 0
Pids = Ptr → Info

-- The pids fall along the list, from below `n`.
abbrev pub Falling : Pids → ℕ → List Ptr → Type 0
Falling info n [] = Unit {0}
Falling info n (p ∷ ps) = ((info p).pid < n) × Falling info (info p).pid ps

-- The list of the processes is `list`, the newest first.
pub record IsList (s : Processes) (list : List Ptr) : Type 0 where
  pub chain : Chain s.links s.process_list list
  pub falling : Falling s.info s.next_pid list

-- The process with the pid.
unfoldable pub find_pid : Pids → ℕ → List Ptr → Ptr
find_pid info pid [] = null
find_pid info pid (p ∷ ps) = if (info p).pid == pid then p else find_pid info pid ps

Falling-out :
    (info : Pids) (n : ℕ) (p : Ptr) (ps : List Ptr)
    → Falling info n ps
    → n ≤ (info p).pid
    → has p ps ≡ false
Falling-out info n p [] f h = refl
Falling-out info n p (q ∷ ps) f h =
    let ne : p ≢ q = λ e. absurd (omega (arith, ap (λ r. (info r).pid) e, f.0)) in
    rw (ne→== p q ne) (Falling-out info (info q).pid p ps f.1 (omega (arith, f.0)))

pub Falling-Distinct : (info : Pids) (n : ℕ) (ps : List Ptr) → Falling info n ps → Distinct ps
Falling-Distinct info n [] f = tt
Falling-Distinct info n (p ∷ ps) f = (
  Falling-out info (info p).pid p ps f.1 (omega arith),
  Falling-Distinct info (info p).pid ps f.1,
)

pub Falling-higher :
    (info : Pids) (n m : ℕ) (ps : List Ptr) → n ≤ m → Falling info n ps → Falling info m ps
Falling-higher info n m [] h f = tt
Falling-higher info n m (p ∷ ps) h f = (omega (arith, f.0), f.1)

Falling-without :
    (info : Pids) (n : ℕ) (p : Ptr) (ps : List Ptr)
    → Falling info n ps
    → Falling info n (without p ps)
Falling-without info n p [] f = tt
Falling-without info n p (q ∷ ps) f = elim (Bool-cases (q == p)) [
  | inl e ↦ rw e (Falling-higher info (info q).pid n ps (omega (arith, f.0)) f.1)
  | inr e ↦ rw e (f.0, Falling-without info (info q).pid p ps f.1)
]

find_pid_none :
    (info : Pids) (n pid : ℕ) (ps : List Ptr)
    → Falling info n ps
    → n ≤ pid
    → find_pid info pid ps ≡ null
unfolding find_pid
find_pid_none info n pid [] f h = refl
find_pid_none info n pid (q ∷ ps) f h =
    rw (ne→== (info q).pid pid (omega (arith, f.0)))
      (find_pid_none info (info q).pid pid ps f.1 (omega (arith, f.0)))

has_below :
    (info : Pids) (n : ℕ) (p : Ptr) (ps : List Ptr)
    → Falling info n ps
    → has p ps ≡ true
    → (info p).pid < n
has_below info n p [] f h = absurd (cc h)
has_below info n p (q ∷ ps) f h = elim (Bool-cases (p == q)) [
  | inl e ↦ omega (arith, ap (λ r. (info r).pid) (==→eq p q e), f.0)
  | inr e ↦ omega (arith, has_below info (info q).pid p ps f.1 (rw e at h), f.0)
]

-- No other process has the pid of `p`.
find_pid-without :
    (info : Pids) (n : ℕ) (p : Ptr) (pid : ℕ) (ps : List Ptr)
    → Falling info n ps
    → has p ps ≡ true
    → find_pid info pid (without p ps)
      ≡ (if (info p).pid == pid then null else find_pid info pid ps)
unfolding find_pid
find_pid-without info n p pid [] f h = absurd (cc h)
find_pid-without info n p pid (q ∷ ps) f h = elim (Bool-cases (q == p)) [
  | inl e ↦
      let same : q ≡ p = ==→eq q p e in
      let pids : (info q).pid ≡ (info p).pid = ap (λ r. (info r).pid) same in
      elim (Bool-cases ((info p).pid == pid)) [
        | inl g ↦
            rw (e, g)
              (find_pid_none info (info q).pid pid ps f.1
                (omega (arith, pids, ==→eq (info p).pid pid g)))
        | inr g ↦ rw (e, g, pids, g) refl
      ]
  | inr e ↦
      let other : q ≢ p = ==→ne q p e in
      let tail : has p ps ≡ true = ground (arith, h, other) in
      let below = has_below info (info q).pid p ps f.1 tail in
      elim (Bool-cases ((info q).pid == pid)) [
        | inl g ↦
            let miss : (info p).pid == pid ≡ false =
              ne→== (info p).pid pid (omega (arith, below, ==→eq (info q).pid pid g)) in
            rw (e, g, miss) refl
        | inr g ↦ rw (e, g) (find_pid-without info (info q).pid p pid ps f.1 tail)
      ]
]

lookup_from-find_pid :
    (fuel : ℕ) (s : Processes) (p : Ptr) (pid : ℕ) (ps : List Ptr)
    → Chain s.links p ps
    → length ps < fuel
    → lookup_from fuel s p pid ≡ some (find_pid s.info pid ps)
unfolding lookup_from find_pid
lookup_from-find_pid zero s p pid ps c h = absurd (omega arith)
lookup_from-find_pid (suc fuel) s p pid [] c h = rw (eq→== p null c)
lookup_from-find_pid (suc fuel) s p pid (q ∷ ps) c h =
    let ih = lookup_from-find_pid fuel s (s.links q) pid ps c.2 (omega arith) in
    rw c.0 (
      rw (ne→== q null c.1)
        (elim (Bool-cases ((s.info q).pid == pid)) [ inl e ↦ rw e refl | inr e ↦ rw e ih ]))

-- The walk of `process_destroy` from `q`, which is not the process that goes.
record Unlinked (l : Links) (q p : Ptr) (ps : List Ptr) (o : Option Links) : Type 0 where
  links : Links
  returns : o ≡ some links
  chain : Chain links (links q) (without p ps)
  same : (a : Ptr) → has a (q ∷ ps) ≡ false → links a ≡ l a

unlink-Unlinked :
    (fuel : ℕ) (l : Links) (q p : Ptr) (ps : List Ptr)
    → Chain l (l q) ps
    → Distinct (q ∷ ps)
    → q ≢ null
    → p ≢ null
    → suc (length ps) < fuel
    → Unlinked l q p ps (unlink_process fuel l q p)
unfolding unlink_process link
unlink-Unlinked zero l q p ps c d nn pn h = absurd (omega arith)
unlink-Unlinked (suc zero) l q p ps c d nn pn h = absurd (omega arith)
unlink-Unlinked (suc (suc fuel)) l q p [] c d nn pn h =
    let other : l q ≢ p = λ e. pn (sym e ∙ c) in
    rw (ne→== q null nn, ne→== (l q) p other, eq→== (l q) null c)
      (record { links = l; returns = refl; chain = c; same = λ a k. refl })
unlink-Unlinked (suc (suc fuel)) l q p (r ∷ ps) c d nn pn h = elim (Bool-cases (r == p)) [
  | inl e ↦
      let hit : l q == p ≡ true = rw c.0 e in
      let after : Ptr = l p in
      let at_q : link l q after q ≡ l r = ground (arith, ap l (==→eq r p e)) in
      let out : has q ps ≡ false = ground (arith, d.0) in
      rw (ne→== q null nn, hit)
        (record {
          links = link l q after;
          returns = refl;
          chain = rw e (rw at_q (Chain-link l (l r) q after ps out c.2));
          same = λ a k. ground arith;
        })
  | inr e ↦
      let miss : l q == p ≡ false = rw c.0 e in
      let rest = unlink-Unlinked (suc fuel) l r p ps c.2 d.1 c.1 pn (omega arith) in
      rw (ne→== q null nn, miss)
        (record {
          links = rest.links;
          returns = ap (λ a. unlink_process (suc fuel) l a p) c.0 ∙ rest.returns;
          chain = rw e (rest.same q d.0 ∙ c.0, c.1, rest.chain);
          same = λ a k. rest.same a (ground arith);
        })
]

destroyed :
    (fuel : ℕ) (s : Processes) (p : Ptr) (list : List Ptr)
    → Chain s.links s.process_list list
    → Distinct list
    → has p list ≡ true
    → length list < fuel
    → p ≢ null
    → (s' : Processes) × (process_destroy fuel s p ≡ some s')
      × Chain s'.links s'.process_list (without p list)
      × (s'.info ≡ s.info)
      × (s'.next_pid ≡ s.next_pid)
unfolding process_destroy
destroyed fuel s p [] c d h k pn = absurd (cc h)
destroyed fuel s p (q ∷ list) c d h k pn = elim (Bool-cases (q == p)) [
  | inl e ↦
      let hit : s.process_list == p ≡ true = rw c.0 e in
      let next : Chain s.links (s.links p) list =
        subst (λ r. Chain s.links (s.links r) list) (==→eq q p e) c.2 in
      (record s { process_list = s.links p }, rw (ne→== p null pn, hit) refl, rw e next, refl, refl)
  | inr e ↦
      let miss : s.process_list == p ≡ false = rw c.0 e in
      let walk = unlink-Unlinked fuel s.links q p list c.2 d c.1 pn (omega arith) in
      (
        record s { links = walk.links },
        rw (ne→== p null pn, miss)
            (ap (λ a. unlinked s (unlink_process fuel s.links a p)) c.0
              ∙ ap (unlinked s) walk.returns),
        rw e (c.0, c.1, walk.chain),
        refl,
        refl,
      )
]

length-without : (p : Ptr) (ps : List Ptr) → length (without p ps) ≤ length ps
length-without p [] = omega arith
length-without p (q ∷ ps) = elim (Bool-cases (q == p)) [
  | inl e ↦ rw e (omega arith)
  | inr e ↦ rw e (let h = length-without p ps in omega arith)
]

not_null-has : (l : Links) (a p : Ptr) (ps : List Ptr) → Chain l a ps → has p ps ≡ true → p ≢ null
not_null-has l a p [] c h = absurd (cc h)
not_null-has l a p (q ∷ ps) c h = elim (Bool-cases (p == q)) [
  | inl e ↦ λ z. c.1 (sym (==→eq p q e) ∙ z)
  | inr e ↦ not_null-has l (l q) p ps c.2 (rw e at h)
]

some-if : (b : Bool) (x y : Ptr) → some (if b then x else y) ≡ (if b then some x else some y)
some-if true x y = refl
some-if false x y = refl

-- `process_destroy` of a process of the list, with more fuel than the list is long, returns and takes
-- it out of the list, whose pids still fall: `process_lookup` of its pid returns NULL afterwards, and
-- of every other pid what it returned before.
pub process_lookup-process_destroy :
    (fuel : ℕ) (s : Processes) (p : Ptr) (list : List Ptr)
    → IsList s list
    → has p list ≡ true
    → length list < fuel
    → (s' : Processes) × (process_destroy fuel s p ≡ some s')
      × IsList s' (without p list)
      × ((pid : ℕ)
          → process_lookup fuel s' pid
            ≡ (if (s.info p).pid == pid then some null else process_lookup fuel s pid))
unfolding process_lookup
process_lookup-process_destroy fuel s p list is h k =
    let pn = not_null-has s.links s.process_list p list is.chain h in
    let distinct = Falling-Distinct s.info s.next_pid list is.falling in
    let (s', e, c, same, next) = destroyed fuel s p list is.chain distinct h k pn in
    let shorter = length-without p list in
    let falls = Falling-without s.info s.next_pid p list is.falling in
    (
      s',
      e,
      record { chain = c; falling = rw (same, next) falls },
      λ pid.
          lookup_from-find_pid fuel s' s'.process_list pid (without p list) c (omega arith)
          ∙ ap (λ i. some (find_pid i pid (without p list))) same
          ∙ ap some (find_pid-without s.info s.next_pid p pid list is.falling h)
          ∙ some-if ((s.info p).pid == pid) null (find_pid s.info pid list)
          ∙ ap (λ o. if (s.info p).pid == pid then some null else o)
              (sym (lookup_from-find_pid fuel s s.process_list pid list is.chain k)),
    )
