-- ===== src/Client/Asking.antt =====
-- Which watcher answers a node's request.
use gorigin.Prelude.{
  ℕ, ◌≡◌, refl, inl, inr, List, [], ◌∷◌, map, Option, none, some, Bool, Bool-cases, Option-cases,
  if◌then◌else◌,
}
use gorigin.FuncCache.{NodeConn}
use gorigin.Client.{WatchNode, next_number, slaves_try, slaves_call, master_call}

-- The watchers that a request goes to, one after the other, each with the number of the request: the
-- master, if it has a socket, with one number, and the slaves with one of their own.
unfoldable pub candidates : (NodeConn → Bool) → WatchNode → List (NodeConn × ℕ)
candidates linked w =
    let (count, num) = next_number w.count in
    let (count', num') = next_number count in
    elim w.master [
      | none ↦ map (λ s. (s, num)) w.slaves
      | some m ↦
          (if linked m
            then (m, num) ∷ map (λ s. (s, num')) w.slaves
            else map (λ s. (s, num)) w.slaves)
    ]

-- The first answer.
unfoldable pub first_of {ℓ} :
    {A : Type ℓ} → (NodeConn → ℕ → Option A) → List (NodeConn × ℕ) → Option A
first_of attempt [] = none
first_of attempt ((c, num) ∷ cs) =
    let rest = first_of attempt cs in elim (attempt c num) [ some a ↦ some a | none ↦ rest ]

slaves_try-first :
    {A : Type 0} (attempt : NodeConn → ℕ → Option A) (num : ℕ) (ss : List NodeConn)
    → slaves_try attempt num ss ≡ first_of attempt (map (λ s. (s, num)) ss)
unfolding slaves_try first_of
slaves_try-first attempt num [] = refl
slaves_try-first attempt num (s ∷ ss) = elim (Option-cases (attempt s num)) [
  | inl e ↦ rw (slaves_try, first_of, e) (slaves_try-first attempt num ss)
  | inr (a, e) ↦ rw (slaves_try, first_of, e) refl
]

-- `MasterCall` answers what the first of its candidates does that takes the request, whatever that
-- answer is; it has no answer just if none takes it.
pub master_call-first :
    {A : Type 0} (linked : NodeConn → Bool) (attempt : NodeConn → ℕ → Option A) (w : WatchNode)
    → (master_call linked attempt w).1 ≡ first_of attempt (candidates linked w)
unfolding master_call candidates slaves_call first_of
master_call-first linked attempt w = elim (Option-cases w.master) [
  | inl e ↦ rw (master_call, candidates, e) (slaves_try-first attempt _ w.slaves)
  | inr (m, e) ↦ elim (Bool-cases (linked m)) [
    | inr off ↦ rw (master_call, candidates, e, off) (slaves_try-first attempt _ w.slaves)
    | inl on ↦ elim (Option-cases (attempt m (next_number w.count).1)) [
      | inl gone ↦
          rw (master_call, candidates, e, on, first_of, gone) (slaves_try-first attempt _ w.slaves)
      | inr (a, there) ↦ rw (master_call, candidates, e, on, first_of, there) refl
    ]
  ]
]
