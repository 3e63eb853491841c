-- ===== src/Scheduler/Queue/Chain.antt =====
-- The tasks that a queue of queue.c links together, in order.
use zenith_os.Prelude.{
  ◌≡◌, refl, ap, ◌≢◌, inl, inr, Bool, true, false, ◌||◌, List, [], ◌∷◌, ◌++◌, arith, ◌==◌, ==→eq,
  Bool-cases,
}
use zenith_os.Scheduler.Queue.{Ptr, null, Links, link}

abbrev pub has : Ptr → List Ptr → Bool
has a [] = false
has a (x ∷ xs) = a == x || has a xs

abbrev pub Distinct : List Ptr → Type 0
Distinct [] = Unit {0}
Distinct (x ∷ xs) = (has x xs ≡ false) × Distinct xs

-- From `p` the links lead through `xs` to NULL.
abbrev pub Chain : Links → Ptr → List Ptr → Type 0
Chain l p [] = p ≡ null
Chain l p (x ∷ xs) = (p ≡ x) × (x ≢ null) × Chain l (l x) xs

-- A chain depends on the links of its own tasks alone.
pub Chain-frame :
    (l m : Links) (p : Ptr) (xs : List Ptr)
    → ((a : Ptr) → has a xs ≡ true → m a ≡ l a)
    → Chain l p xs
    → Chain m p xs
Chain-frame l m p [] same c = c
Chain-frame l m p (x ∷ xs) same (e, ne, c) =
    (e, ne, rw (same x (ground arith)) (Chain-frame l m (l x) xs (λ a h. same a (ground arith)) c))

pub Chain-link :
    (l : Links) (p a q : Ptr) (xs : List Ptr)
    → has a xs ≡ false
    → Chain l p xs
    → Chain (link l a q) p xs
unfolding link
Chain-link l p a q xs out c =
    Chain-frame l (link l a q) p xs
      (λ b h. elim (Bool-cases (b == a)) [
        | inl e ↦ absurd (cc (out, h, ap (λ c. has c xs) (==→eq b a e)))
        | inr ne ↦ rw ne
      ])
      c

pub has-append : (a : Ptr) (xs ys : List Ptr) → has a (xs ++ ys) ≡ (has a xs || has a ys)
has-append a [] ys = refl
has-append a (x ∷ xs) ys = ground (arith, has-append a xs ys)

pub Distinct-snoc :
    (xs : List Ptr) (t : Ptr) → has t xs ≡ false → Distinct xs → Distinct (xs ++ (t ∷ []))
Distinct-snoc [] t out d = (refl, tt)
Distinct-snoc (x ∷ xs) t out d =
    (ground (arith, has-append x xs (t ∷ [])), Distinct-snoc xs t (ground arith) d.1)
