-- ===== src/Client/Beats.antt =====
-- network/rpc/node.go: the heartbeats of a node to its watcher, and when it registers again.
use gorigin.Prelude.{
  ℕ, ◌+◌, ◌/◌, ◌%◌, ◌^◌, ◌<◌, ◌≡◌, inl, inr, List, [], ◌∷◌, Bool, true, false, not, All, arith,
  ◌==◌, ==_iff, if◌then◌else◌, Bool-cases,
}

-- What a beat meets: whether the watcher answers, whether `WatchRegister` works, and behind a failure
-- of it `InitWatchConfig` and `WatchRegister` again.
pub record Beat : Type 0 where
  pub heard : Bool
  pub registers : Bool
  pub configures : Bool
  pub registers_then : Bool

-- Behind the test of the counter: the counter afterwards.
unfoldable pub register_again : Beat → ℕ → ℕ
register_again b wrong =
    if b.registers then 0 else if b.configures then if b.registers_then then 0 else wrong else wrong

-- A round of the function of `InitTimer`: the counter `heartbeatsWrong`, and whether the node has
-- tried to register again.
unfoldable pub heart_beat : Beat → ℕ → ℕ × Bool
heart_beat b wrong =
    let next = (wrong + 1) % 2 ^ 32 in
    if b.heard
    then (wrong, false)
    else if not (next % 3 == 0)
    then (next, false)
    else (register_again b next, true)

-- Many rounds, with the number of times that the node has tried.
unfoldable pub heart_beats : List Beat → ℕ → ℕ × ℕ
heart_beats [] wrong = (wrong, 0)
heart_beats (b ∷ bs) wrong =
    let one = heart_beat b wrong in
    let rest = heart_beats bs one.0 in (rest.0, (if one.1 then 1 else 0) + rest.1)

-- The beats that the watcher does not answer.
abbrev pub unheard : List Beat → ℕ
unheard [] = 0
unheard (b ∷ bs) = (if b.heard then 0 else 1) + unheard bs

-- A beat after which the node is not registered anew.
abbrev pub Fails : Beat → Type 0
Fails b = (b.registers ≡ false) × (b.registers_then ≡ false)

register_again-Fails : (b : Beat) (wrong : ℕ) → Fails b → register_again b wrong ≡ wrong
unfolding register_again
register_again-Fails b wrong (r, t) = elim (Bool-cases b.configures) [
  | inl c ↦ simp (r, c, t)
  | inr c ↦ simp (r, c)
]

third_lem : (n : ℕ) → ((n + 1) % 3 == 0) ≡ false → n / 3 ≡ (n + 1) / 3
third_lem n h = ground arith

beat_heard : (b : Beat) (wrong : ℕ) → b.heard ≡ true → heart_beat b wrong ≡ (wrong, false)
unfolding heart_beat
beat_heard b wrong h = simp h

beat_unheard :
    (b : Beat) (wrong : ℕ)
    → b.heard ≡ false
    → Fails b
    → wrong + 1 < 2 ^ 32
    → heart_beat b wrong ≡ (wrong + 1, (wrong + 1) % 3 == 0)
unfolding heart_beat
beat_unheard b wrong h f small =
    let next : (wrong + 1) % 2 ^ 32 ≡ wrong + 1 = omega arith in
    elim (Bool-cases ((wrong + 1) % 3 == 0)) [
      | inl third ↦ simp (h, next, third, register_again-Fails b (wrong + 1) f)
      | inr other ↦ simp (h, next, other)
    ]

-- While the node cannot register, it tries once for every three beats that the watcher does not
-- answer, whatever answered beats lie between them: after the first third, and so on. The counter has
-- not reached its bound.
pub heart_beats-tries :
    (bs : List Beat) (wrong : ℕ)
    → All Fails bs
    → wrong + unheard bs < 2 ^ 32
    → (wrong / 3 + (heart_beats bs wrong).1 ≡ (wrong + unheard bs) / 3)
      × ((heart_beats bs wrong).0 ≡ wrong + unheard bs)
unfolding heart_beats heart_beat
heart_beats-tries [] wrong h small = (omega arith, omega arith)
heart_beats-tries (b ∷ bs) wrong (f, fs) small = elim (Bool-cases b.heard) [
  | inl yes' ↦
      let count : unheard (b ∷ bs) ≡ unheard bs = rw yes' (omega arith) in
      let (tries, counter) = heart_beats-tries bs wrong fs (omega (arith, small, count)) in
      rw (beat_heard b wrong yes') (omega (arith, tries, count), omega (arith, counter, count))
  | inr no' ↦
      let count : unheard (b ∷ bs) ≡ 1 + unheard bs = rw no' (omega arith) in
      let (tries, counter) = heart_beats-tries bs (wrong + 1) fs (omega (arith, small, count)) in
      rw (beat_unheard b wrong no' f (omega (arith, small, count)))
        (elim (Bool-cases ((wrong + 1) % 3 == 0)) [
          | inl third ↦
              let div : (wrong + 1) % 3 ≡ 0 = (==_iff _ 0).0 third in
              rw third (omega (arith, tries, count), omega (arith, counter, count))
          | inr other ↦
              let div : wrong / 3 ≡ (wrong + 1) / 3 = third_lem wrong other in
              rw other (omega (arith, tries, count), omega (arith, counter, count))
        ])
]
