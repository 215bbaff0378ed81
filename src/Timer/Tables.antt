-- ===== src/Timer/Tables.antt =====
-- What `checkSave` and a round of the ticker do to the two lists.
use gorigin.Prelude.{
  ℕ, ◌+◌, ◌≤◌, ◌<◌, ◌≡◌, ◌≢◌, ◌⊎◌, refl, sym, ap, ◌∙◌, subst, inl, inr, List, [], ◌∷◌, Option, none,
  some, true, not, leb, if◌then◌else◌, Dict, load, store, Every, Unique, load-store, load-keep,
  load-absent, nat_key, ◌==◌, ==_iff, Bool-cases, Option-cases, arith,
}
use gorigin.Timer.{TimerFunc, TimerData, move, check_save, due, tick}

-- A task of a list.
abbrev pub In : TimerFunc → List TimerFunc → Type 0
In v [] = ⊥
In v (w ∷ ws) = (v ≡ w) ⊎ In v ws

-- The second list's task if its time is near, and the first list's otherwise.
abbrev pub near : ℕ → Option TimerFunc → Option TimerFunc → Option TimerFunc
near limit none old = old
near limit (some v) old = if leb v.next limit then some v else old

load-move :
    (k limit : ℕ) (two one : Dict ℕ TimerFunc)
    → Unique two
    → load k (move limit two one) ≡ near limit (load k two) (load k one)
unfolding load move
load-move k limit [] one u = refl
load-move k limit ((j, v) ∷ two) one u = elim (Bool-cases (j == k)) [
  | inl same ↦
      let jk : j ≡ k = (==_iff j k).0 same in
      let gone : load k two ≡ none =
        load-absent k two (subst (λ t. Every (λ i w. i ≢ t) two) jk u.0) in
      elim (Bool-cases (leb v.next limit)) [
        | inl soon ↦
            rw (same, soon)
              (load-move k limit two (store j v one) u.1
                ∙ rw gone (load-store j k v one ∙ rw same refl))
        | inr later ↦ rw (same, later) (load-move k limit two one u.1 ∙ rw gone refl)
      ]
  | inr other ↦ elim (Bool-cases (leb v.next limit)) [
    | inl soon ↦
        rw (other, soon)
          (load-move k limit two (store j v one) u.1
            ∙ ap (near limit (load k two)) (load-store j k v one ∙ rw other refl))
    | inr later ↦ rw (other, later) (load-move k limit two one u.1)
  ]
]

-- `checkSave` moves a task of the second list to the first if its time is at most `part` away, and
-- leaves it there otherwise; a task of the first list stays unless such a task takes its number.
pub load-check_save :
    (t : TimerData) (now k : ℕ)
    → Unique t.two
    → ((load k t.two ≡ none)
        × (load k (check_save t now).one ≡ load k t.one)
        × (load k (check_save t now).two ≡ none))
      ⊎ ((v : TimerFunc) × (load k t.two ≡ some v)
          × (((v.next ≤ now + t.part)
                × (load k (check_save t now).one ≡ some v)
                × (load k (check_save t now).two ≡ none))
              ⊎ ((now + t.part < v.next)
                  × (load k (check_save t now).one ≡ load k t.one)
                  × (load k (check_save t now).two ≡ some v))))
unfolding check_save
load-check_save t now k u =
    let moved = load-move k (now + t.part) t.two t.one u in
    let kept = load-keep (λ key v. not (leb v.next (now + t.part))) k t.two u in
    elim (Option-cases (load k t.two)) [
      | inl e ↦ inl (e, moved ∙ rw e refl, kept ∙ rw e refl)
      | inr (v, e) ↦ inr (
        v,
        e,
        (elim (Bool-cases (leb v.next (now + t.part))) [
          | inl soon ↦ inl (ground arith, moved ∙ rw (e, soon) refl, kept ∙ rw (e, soon) refl)
          | inr later ↦ inr (ground arith, moved ∙ rw (e, later) refl, kept ∙ rw (e, later) refl)
        ]),
      )
    ]

In-due :
    (now k : ℕ) (one : Dict ℕ TimerFunc) (v : TimerFunc)
    → load k one ≡ some v
    → v.next ≤ now
    → In v (due now one)
unfolding load due
In-due now k [] v e h = absurd (ground arith)
In-due now k ((j, w) ∷ one) v e h = elim (Bool-cases (j == k)) [
  | inl same ↦
      let wv : w ≡ v = ground arith in
      let soon : leb w.next now ≡ true =
        subst (λ (t : TimerFunc). leb t.next now ≡ true) (sym wv) (ground arith) in
      rw soon (inl (sym wv))
  | inr other ↦
      let rest = In-due now k one v (ground arith) h in
      elim (Bool-cases (leb w.next now)) [
        | inl soon ↦ rw soon (inr rest)
        | inr later ↦ rw later rest
      ]
]

-- A round of the ticker starts each task of the first list whose time has come, and takes it off the
-- list; the other tasks stay.
pub load-tick :
    (s : TimerData) (now k : ℕ) (v : TimerFunc)
    → Unique s.one
    → load k s.one ≡ some v
    → ((v.next ≤ now) × In v (tick s now).1 × (load k (tick s now).0.one ≡ none))
      ⊎ ((now < v.next) × (load k (tick s now).0.one ≡ some v))
unfolding tick
load-tick s now k v u e =
    let kept = load-keep (λ key w. not (leb w.next now)) k s.one u in
    elim (Bool-cases (leb v.next now)) [
      | inl soon ↦
          inl (ground arith, In-due now k s.one v e (ground arith), kept ∙ rw (e, soon) refl)
      | inr later ↦ inr (ground arith, kept ∙ rw (e, later) refl)
    ]
