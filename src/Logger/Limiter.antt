-- ===== src/Logger/Limiter.antt =====
-- `TrafficLogLimiter` and `NETWORK_TRAFFIC_LOG` of client/include/logger.hpp.
use peer_bridge_cli.Common.{
  ℕ, zero, suc, ◌-◌, ◌≤◌, ◌<◌, ◌≡◌, ltb, map, sym, subst, refl, Bool, true, false, List, [], ◌∷◌,
  arith, if◌then◌else◌, Bool-cases, inl, inr,
}

-- `double`: the literals, the operations and the comparisons that the code uses, and the seconds in
-- a count of nanoseconds.
pub record Doubles (D : Type 0) : Type 0 where
  pub literal : ℕ → D
  pub seconds : ℕ → D
  pub add : D → D → D
  pub mul : D → D → D
  pub sub : D → D → D
  pub lt : D → D → Bool

-- The tokens that the limiter holds, and when it was last asked.
pub record TrafficLogLimiter (D : Type 0) : Type 0 where
  pub capacity : D
  pub rate : D
  pub tokens : D
  pub last_time : ℕ

module _ {D : Type 0} (d : Doubles D) where
  -- The constructor.
  unfoldable pub new_limiter : ℕ → D → TrafficLogLimiter D
  new_limiter now max_logs_per_sec = record {
    capacity = max_logs_per_sec;
    rate = max_logs_per_sec;
    tokens = max_logs_per_sec;
    last_time = now;
  }

  -- `std::min`
  unfoldable pub min_double : D → D → D
  min_double a b = if d.lt b a then b else a

  unfoldable pub try_log : ℕ → TrafficLogLimiter D → TrafficLogLimiter D × Bool
  try_log now l =
      let delta = d.seconds (now - l.last_time) in
      let tokens = min_double l.capacity (d.add l.tokens (d.mul delta l.rate)) in
      let m = record l { last_time = now; tokens = tokens } in
      if d.lt tokens (d.literal 1)
      then (m, false)
      else (record m { tokens = d.sub tokens (d.literal 1) }, true)

  -- The limiter of the program.
  unfoldable pub log_limiter : ℕ → TrafficLogLimiter D
  log_limiter now = new_limiter now (d.literal 6)

  -- `NETWORK_TRAFFIC_LOG`, with the flag that `setShouldLogTraffic` sets: whether it writes.
  unfoldable pub network_traffic_log : Bool → ℕ → TrafficLogLimiter D → TrafficLogLimiter D × Bool
  network_traffic_log should_log now l = if should_log then try_log now l else (l, false)

  -- The number of lines that a run of calls writes.
  unfoldable pub written : List (Bool × ℕ) → TrafficLogLimiter D → ℕ
  written [] l = 0
  written ((should_log, now) ∷ calls) l =
      let (m, wrote) = network_traffic_log should_log now l in
      let rest = written calls m in if wrote then suc rest else rest

  -- What the limiter relies on of doubles, near the literals up to six. `le` is `<=`.
  pub record Ordered (le : D → D → Bool) : Type 0 where
    pub above :
        (x : D) (m n : ℕ) → n ≤ 6 → m < n → le x (d.literal m) ≡ true → d.lt x (d.literal n) ≡ true
    pub down :
        (x : D) (m : ℕ)
        → m < 6
        → le x (d.literal (suc m)) ≡ true
        → le (d.sub x (d.literal 1)) (d.literal m) ≡ true
    pub still :
        (x : D) (m : ℕ)
        → m ≤ 6
        → le x (d.literal m) ≡ true
        → le (d.add x (d.mul (d.seconds 0) (d.literal 6))) (d.literal m) ≡ true
    pub same : le (d.literal 6) (d.literal 6) ≡ true

module _ {D : Type 0} (d : Doubles D) (le : D → D → Bool) (o : Ordered d le) where
  -- At one instant, with `m` tokens at most.
  record Holding (now m : ℕ) (l : TrafficLogLimiter D) : Type 0 where
    capacity : l.capacity ≡ d.literal 6
    rate : l.rate ≡ d.literal 6
    time : l.last_time ≡ now
    tokens : le l.tokens (d.literal m) ≡ true

  refilled :
      (m : ℕ) (x : D)
      → m ≤ 6
      → le x (d.literal m) ≡ true
      → le (min_double d (d.literal 6) x) (d.literal m) ≡ true
  unfolding min_double
  refilled m x h e = elim (Bool-cases (d.lt x (d.literal 6))) [
    | inl below ↦ rw below e
    | inr full ↦ elim (Bool-cases (ltb m 6)) [
      | inl less ↦ cc (o.above x m 6 (omega arith) (ground arith) e, full)
      | inr not_less ↦
          let six : m ≡ 6 = ground arith in
          rw full (subst (λ k. le (d.literal 6) (d.literal k) ≡ true) (sym six) o.same)
    ]
  ]

  -- What a call at the same instant finds to spend.
  spendable : ℕ → TrafficLogLimiter D → D
  spendable now l =
      min_double d l.capacity (d.add l.tokens (d.mul (d.seconds (now - l.last_time)) l.rate))

  spendable-le :
      (now m : ℕ) (l : TrafficLogLimiter D)
      → m ≤ 6
      → Holding now m l
      → le (spendable now l) (d.literal m) ≡ true
  unfolding spendable
  spendable-le now m l h v =
      let none_passed : now - l.last_time ≡ 0 = omega (arith, v.time) in
      rw (none_passed, v.capacity, v.rate) (refilled m _ h (o.still l.tokens m h v.tokens))

  -- A call that writes takes a token, and one that does not takes none.
  abbrev Spent : ℕ → ℕ → TrafficLogLimiter D × Bool → Type 0
  Spent now m (l, false) = Holding now m l
  Spent now m (l, true) = (n : ℕ) × (m ≡ suc n) × Holding now n l

  spend :
      (now m : ℕ) (l : TrafficLogLimiter D) (x : D)
      → m ≤ 6
      → Holding now m l
      → le x (d.literal m) ≡ true
      → (b : Bool) → d.lt x (d.literal 1) ≡ b
      → Spent now m (
          if b
          then (record l { last_time = now; tokens = x }, false)
          else (record l { last_time = now; tokens = d.sub x (d.literal 1) }, true))
  spend now m l x h v e true f = record {
    capacity = v.capacity;
    rate = v.rate;
    time = refl;
    tokens = e;
  }
  spend now zero l x h v e false f = cc (o.above x 0 1 (omega arith) (omega arith) e, f)
  spend now (suc n) l x h v e false f = (
    n,
    refl,
    record {
      capacity = v.capacity;
      rate = v.rate;
      time = refl;
      tokens = o.down x n (omega arith) e;
    },
  )

  log-Spent :
      (now m : ℕ) (l : TrafficLogLimiter D) (should_log : Bool)
      → m ≤ 6
      → Holding now m l
      → Spent now m (network_traffic_log d should_log now l)
  unfolding network_traffic_log try_log spendable
  log-Spent now m l false h v = v
  log-Spent now m l true h v = spend now m l (spendable now l) h v (spendable-le now m l h v) _ refl

  counted :
      (now m : ℕ) (should_log : List Bool) (r : TrafficLogLimiter D × Bool)
      → m ≤ 6
      → Spent now m r
      → ((k : ℕ) (l : TrafficLogLimiter D)
          → k ≤ 6
          → Holding now k l
          → written d (map (λ b. (b, now)) should_log) l ≤ k)
      → (if r.1
          then suc (written d (map (λ b. (b, now)) should_log) (r.0))
          else written d (map (λ b. (b, now)) should_log) (r.0))
        ≤ m
  counted now m calls (l, false) h v f = f m l h v
  counted now m calls (l, true) h (n, e, v) f = omega (arith, f n l (omega (arith, e)) v, e)

  written-le :
      (now : ℕ) (should_log : List Bool) (m : ℕ) (l : TrafficLogLimiter D)
      → m ≤ 6
      → Holding now m l
      → written d (map (λ b. (b, now)) should_log) l ≤ m
  unfolding written
  written-le now [] m l h v = omega arith
  written-le now (b ∷ bs) m l h v =
      counted now m bs _ h (log-Spent now m l b h v) (written-le now bs)

  -- Calls of the traffic log at one instant, however many, write six lines at most. Of doubles the
  -- limiter relies on the order of the literals up to six, and on sums and differences near them.
  pub log_limiter-written :
      (now : ℕ) (should_log : List Bool)
      → written d (map (λ b. (b, now)) should_log) (log_limiter d now) ≤ 6
  unfolding log_limiter new_limiter
  log_limiter-written now should_log =
      written-le now should_log 6 (log_limiter d now) (omega arith)
        (record { capacity = refl; rate = refl; time = refl; tokens = o.same })
