-- ===== src/Server/Connections/Sessions.antt =====
-- About the tracker and the sessions of `run_listener`: a task that panics does not reach `release`.
use trx_rs.Common.{
  ℕ, suc, ◌+◌, ◌-◌, ◌≤◌, ◌<◌, true, false, ltb, leb, ◌==◌, ◌≡◌, refl, sym, ap, ◌∙◌, arith, inl, inr,
  Bool-cases, Option-cases, if◌then◌else◌,
}
use trx_rs.Server.Connections.{
  max_connections_per_ip, ConnectionTracker, new, count_or_zero, try_acquire, released, release,
}

-- the sessions of each address that run, and those that ended by a panic
pub record Listener : Type 0 where
  pub tracker : ConnectionTracker
  pub live : ℕ → ℕ
  pub panicked : ℕ → ℕ

abbrev pub at : ℕ → ℕ → (ℕ → ℕ) → ℕ → ℕ
at ip n f other = if ip == other then n else f other

-- what can happen to a connection
pub data Step (l : Listener) : Listener → Type 0 where
  accepted :
      (ip : ℕ)
      → (try_acquire ip l.tracker).0 ≡ true
      → Step l (record {
        tracker = (try_acquire ip l.tracker).1;
        live = at ip (l.live ip + 1) l.live;
        panicked = l.panicked;
      })
  rejected :
      (ip : ℕ)
      → (try_acquire ip l.tracker).0 ≡ false
      → Step l
          (record { tracker = (try_acquire ip l.tracker).1; live = l.live; panicked = l.panicked })
  ended :
      (ip k : ℕ)
      → l.live ip ≡ suc k
      → Step l
          (record { tracker = release ip l.tracker; live = at ip k l.live; panicked = l.panicked })
  crashed :
      (ip k : ℕ)
      → l.live ip ≡ suc k
      → Step l (record {
        tracker = l.tracker;
        live = at ip k l.live;
        panicked = at ip (l.panicked ip + 1) l.panicked;
      })

pub data Reachable : Listener → Type 0 where
  started : Reachable (record { tracker = new; live = λ ip. 0; panicked = λ ip. 0 })
  next : {l m : Listener} → Reachable l → Step l m → Reachable m

abbrev pub count : Listener → ℕ → ℕ
count l ip = count_or_zero (l.tracker.counts ip)

-- the tracker counts the sessions that run or panicked, and no more than ten
abbrev IsCounted : Listener → Type 0
IsCounted l =
    (ip : ℕ) → (count l ip ≡ l.live ip + l.panicked ip) × (count l ip ≤ max_connections_per_ip)

-- the same count at an address that is the same
same_count :
    (l : Listener) (ip other : ℕ)
    → (ip == other) ≡ true
    → (l.live ip ≡ l.live other)
      × ((l.panicked ip ≡ l.panicked other) × (l.tracker.counts ip ≡ l.tracker.counts other))
same_count l ip other y =
    let p : ip ≡ other = ground (arith, y) in
    (ap l.live p, (ap l.panicked p, ap l.tracker.counts p))

-- how an acquisition changes the count of any address
acquired :
    (ip other : ℕ) (t : ConnectionTracker)
    → ((ip == other) ≡ true → t.counts ip ≡ t.counts other)
    → (try_acquire ip t).0 ≡ true
    → (count_or_zero ((try_acquire ip t).1.counts other) ≡ (
        if ip == other then count_or_zero (t.counts other) + 1 else count_or_zero (t.counts other)))
      × (count_or_zero (t.counts ip) < max_connections_per_ip)
unfolding try_acquire
acquired ip other t same e =
    elim (Bool-cases (leb max_connections_per_ip (count_or_zero (t.counts ip)))) [
      | inl full ↦ let no : false ≡ true = rw full at e in absurd (ground (arith, no))
      | inr room ↦ elim (Bool-cases (ip == other)) [
        | inl y ↦ rw (room, y) (ap (λ c. count_or_zero c + 1) (same y), ground (arith, room))
        | inr f ↦ rw (room, f) (refl, ground (arith, room))
      ]
    ]

refused :
    (ip other : ℕ) (t : ConnectionTracker)
    → ((ip == other) ≡ true → t.counts ip ≡ t.counts other)
    → (try_acquire ip t).0 ≡ false
    → count_or_zero ((try_acquire ip t).1.counts other) ≡ count_or_zero (t.counts other)
unfolding try_acquire
refused ip other t same e =
    elim (Bool-cases (leb max_connections_per_ip (count_or_zero (t.counts ip)))) [
      | inl full ↦ elim (Bool-cases (ip == other)) [
        | inl y ↦ rw (full, y) (ap count_or_zero (same y))
        | inr f ↦ rw (full, f) refl
      ]
      | inr room ↦ let no : true ≡ false = rw room at e in absurd (ground (arith, no))
    ]

freed :
    (ip other : ℕ) (t : ConnectionTracker)
    → ((ip == other) ≡ true → t.counts ip ≡ t.counts other)
    → count_or_zero ((release ip t).counts other)
      ≡ (if ip == other then count_or_zero (t.counts other) - 1 else count_or_zero (t.counts other))
unfolding release released
freed ip other t same = elim (Option-cases (t.counts ip)) [
  | inl e ↦ elim (Bool-cases (ip == other)) [
    | inl y ↦
        let n : count_or_zero (t.counts other) ≡ 0 = ap count_or_zero (sym (same y) ∙ e) in
        rw (e, y) (omega (arith, n))
    | inr f ↦ rw (e, f) refl
  ]
  | inr (c, e) ↦ elim (Bool-cases (c - 1 == 0)) [
    | inl z ↦ elim (Bool-cases (ip == other)) [
      | inl y ↦
          let n : count_or_zero (t.counts other) ≡ c = ap count_or_zero (sym (same y) ∙ e) in
          let left : (c - 1 == 0) ≡ true = z in rw (e, z, y) (ground (arith, n, left))
      | inr f ↦ rw (e, z, f) refl
    ]
    | inr w ↦ elim (Bool-cases (ip == other)) [
      | inl y ↦
          let n : count_or_zero (t.counts other) ≡ c = ap count_or_zero (sym (same y) ∙ e) in
          let left : (c - 1 == 0) ≡ false = w in rw (e, w, y) (ground (arith, n, left))
      | inr f ↦ rw (e, w, f) refl
    ]
  ]
]

step-IsCounted : {l m : Listener} → IsCounted l → Step l m → IsCounted m
step-IsCounted {l} v (accepted ip e) other =
    let a = acquired ip other l.tracker (λ y. (same_count l ip other y).1.1) e in
    elim (Bool-cases (ip == other)) [
      | inl y ↦
          let s = same_count l ip other y in
          let more = rw y at a in
          rw y (
            omega (arith, more, s.0, s.1.0, v other, v ip),
            omega (arith, more, s.0, s.1.0, v other, v ip),
          )
      | inr f ↦
          let more = rw f at a in rw f (more.0 ∙ (v other).0, omega (arith, more.0, (v other).1))
    ]
step-IsCounted {l} v (rejected ip e) other =
    let a = refused ip other l.tracker (λ y. (same_count l ip other y).1.1) e in
    (a ∙ (v other).0, omega (arith, a, (v other).1))
step-IsCounted {l} v (ended ip k e) other =
    let a = freed ip other l.tracker (λ y. (same_count l ip other y).1.1) in
    elim (Bool-cases (ip == other)) [
      | inl y ↦
          let s = same_count l ip other y in
          let less = rw y at a in
          rw y (omega (arith, less, e, s.0, v other), omega (arith, less, v other))
      | inr f ↦ let less = rw f at a in rw f (less ∙ (v other).0, omega (arith, less, (v other).1))
    ]
step-IsCounted {l} v (crashed ip k e) other = elim (Bool-cases (ip == other)) [
  | inl y ↦
      let s = same_count l ip other y in rw y (omega (arith, e, s.0, s.1.0, v other), (v other).1)
  | inr f ↦ rw f (v other)
]

Reachable-IsCounted : {l : Listener} → Reachable l → IsCounted l
unfolding new
Reachable-IsCounted started = λ ip. (refl, omega arith)
Reachable-IsCounted (next r s) = step-IsCounted (Reachable-IsCounted r) s

-- In every state that connections of any addresses lead to, the sessions of an address that run
-- and those that ended by a panic are ten at most, and a new connection is accepted exactly when
-- they are fewer than ten.
pub try_acquire-Reachable :
    (l : Listener)
    → Reachable l
    → (ip : ℕ)
    → (l.live ip + l.panicked ip ≤ max_connections_per_ip)
      × ((try_acquire ip l.tracker).0 ≡ ltb (l.live ip + l.panicked ip) max_connections_per_ip)
unfolding try_acquire
try_acquire-Reachable l r ip =
    let v = Reachable-IsCounted r ip in (omega (arith, v), ground (arith, v))
