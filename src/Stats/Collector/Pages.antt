-- ===== src/Stats/Collector/Pages.antt =====
-- What a client that asks for page after page gets, and what the sums of the summary are.
use fast_port.Prelude.{
  ℕ, zero, suc, ◌+◌, ◌%◌, ◌^◌, ◌<◌, ◌≡◌, Option, none, some, List, [], ◌∷◌, ◌++◌, ltb, ◌==◌,
  if◌then◌else◌, add64, arith,
}
use fast_port.Stats.Collector.{
  SessionStats, Provided, answers, Snapshot, SessionInfoData, ServerMode, snapshot_summary,
  snapshot_sessions, add_rx, add_tx,
}

-- How far a client moves its offset on for the next page.
abbrev pub stride : ℕ → ℕ
stride limit = if limit == 0 then 1000 else if ltb 1000 limit then 1000 else limit

-- The requests of a client that moves its offset on by the stride until it is past the total.
abbrev pub pages : ℕ → ℕ → ℕ → Snapshot → List SessionInfoData
pages zero offset limit ss = []
pages (suc f) offset limit ss =
    (snapshot_sessions (answers ss) offset limit).sessions
    ++ pages f (offset + stride limit) limit ss

-- The sum of a number over the sessions that are not null.
abbrev pub sum_of : (SessionStats → ℕ) → Snapshot → ℕ
sum_of f [] = 0
sum_of f (none ∷ ss) = sum_of f ss
sum_of f (some s ∷ ss) = f s + sum_of f ss

abbrev rx : SessionStats → ℕ
rx s = s.total_rx_bytes

abbrev tx : SessionStats → ℕ
tx s = s.total_tx_bytes

add_rx-sum_of : (n : ℕ) (ss : Snapshot) → n < 2 ^ 64 → add_rx n ss ≡ (n + sum_of rx ss) % 2 ^ 64
unfolding add_rx
add_rx-sum_of n [] h = omega arith
add_rx-sum_of n (none ∷ ss) h = add_rx-sum_of n ss h
add_rx-sum_of n (some s ∷ ss) h =
    let later = add_rx-sum_of (add64 n s.total_rx_bytes) ss (omega arith) in omega (arith, later)

add_tx-sum_of : (n : ℕ) (ss : Snapshot) → n < 2 ^ 64 → add_tx n ss ≡ (n + sum_of tx ss) % 2 ^ 64
unfolding add_tx
add_tx-sum_of n [] h = omega arith
add_tx-sum_of n (none ∷ ss) h = add_tx-sum_of n ss h
add_tx-sum_of n (some s ∷ ss) h =
    let later = add_tx-sum_of (add64 n s.total_tx_bytes) ss (omega arith) in omega (arith, later)

-- The summary's byte counts are the sums over the sessions that are not null, modulo 2^64.
pub snapshot_summary-totals :
    (mode : ServerMode) (start steady wall : ℕ) (idle : Provided ℕ) (sampler : Option (ℕ × ℕ))
    (ss : Snapshot)
    → let out = snapshot_summary mode start steady wall (answers ss) idle sampler in
      (out.total_rx_bytes ≡ sum_of rx ss % 2 ^ 64) × (out.total_tx_bytes ≡ sum_of tx ss % 2 ^ 64)
unfolding snapshot_summary
snapshot_summary-totals mode start steady wall idle sampler ss =
    let received = add_rx-sum_of 0 ss (omega arith) in
    let sent = add_tx-sum_of 0 ss (omega arith) in (omega (arith, received), omega (arith, sent))
