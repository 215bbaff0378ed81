-- ===== src/Elect/Laws.antt =====
-- Who wins when several watchers campaign at once.
use gorigin.Prelude.{
  ℕ, ◌≤◌, ◌<◌, ◌≡◌, ◌⊎◌, refl, sym, subst, inl, inr, List, [], ◌∷◌, true, false, All, ltb, ◌&&◌,
  Bool-cases, arith,
}
use gorigin.Elect.{WatchElect, ElectCampReq, elect_notify}

-- The notices of several campaigns, in the order and at the times of their arrival.
unfoldable pub notify_all : WatchElect → List (ℕ × ElectCampReq) → WatchElect
notify_all e [] = e
notify_all e ((now, req) ∷ rest) = notify_all (elect_notify e now req).0 rest

-- A notice that arrives, and a campaign that ends, on either side of a time.
abbrev pub Around : ℕ → ℕ × ElectCampReq → Type 0
Around t (now, req) = (now ≤ t) × (t < req.exprie)

-- The node and the begin of one of the campaigns.
abbrev pub Among : WatchElect → List (ℕ × ElectCampReq) → Type 0
Among w [] = ⊥
Among w ((now, req) ∷ rest) = ((w.node_id ≡ req.base) × (w.begin ≡ req.begin)) ⊎ Among w rest

-- The choice `w` began no later than anything before it, and is one of the campaigns.
abbrev Wins : WatchElect → List (ℕ × ElectCampReq) → WatchElect → Type 0
Wins e reqs w =
    (w.begin ≤ e.begin)
    × All (λ r. w.begin ≤ r.1.begin) reqs
    × (((w.node_id ≡ e.node_id) × (w.begin ≡ e.begin)) ⊎ Among w reqs)

-- While no campaign has ended, a watcher is for the campaign that began first: no notice, whatever
-- the order, makes it choose one that began later than another, and its choice is one of them.
pub notify_all-earliest :
    (t : ℕ) (e : WatchElect) (reqs : List (ℕ × ElectCampReq))
    → t < e.exprie
    → All (Around t) reqs
    → let w = notify_all e reqs in
      (w.begin ≤ e.begin)
      × All (λ r. w.begin ≤ r.1.begin) reqs
      × (((w.node_id ≡ e.node_id) × (w.begin ≡ e.begin)) ⊎ Among w reqs)
unfolding notify_all elect_notify
notify_all-earliest t e [] h a = (omega arith, tt, inl (refl, refl))
notify_all-earliest t e ((now, req) ∷ rest) h a =
    elim (Bool-cases (ltb now e.exprie && ltb e.begin req.begin)) [
      | inl refused ↦
          let step : (elect_notify e now req).0 ≡ e = rw refused refl in
          let (low, all, who) = notify_all-earliest t e rest h a.1 in
          let later : e.begin < req.begin = ground arith in
          subst (λ s. Wins e ((now, req) ∷ rest) (notify_all s rest)) (sym step)
            (
              low,
              (omega (arith, low, later), all),
              elim who [ inl same ↦ inl same | inr other ↦ inr (inr other) ],
            )
      | inr taken ↦
          let e' : WatchElect = record {
            center = false;
            node_id = req.base;
            begin = req.begin;
            exprie = req.exprie;
          } in
          let step : (elect_notify e now req).0 ≡ e' = rw taken refl in
          let live : ltb now e.exprie ≡ true = ground (arith, a.0.0, h) in
          let sooner : req.begin ≤ e.begin = ground arith in
          let (low, all, who) = notify_all-earliest t e' rest a.0.1 a.1 in
          subst (λ s. Wins e ((now, req) ∷ rest) (notify_all s rest)) (sym step)
            (
              omega (arith, low, sooner),
              (low, all),
              elim who [ inl same ↦ inr (inl same) | inr other ↦ inr (inr other) ],
            )
    ]
