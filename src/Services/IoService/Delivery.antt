-- ===== src/Services/IoService/Delivery.antt =====
-- Stopping an IOService: every completion that was queued before is delivered, and the threads are gone.
use fast_port.Prelude.{
  ℕ, zero, suc, ◌≡◌, ◌≢◌, Bool, if◌then◌else◌, true, false, List, [], ◌∷◌, ◌++◌,
}
use fast_port.Services.IoService.{
  netname_deleted, operation_aborted, other, Status, Completion, shutdown_key, completed, IoService,
}

-- A status that no thread ends on.
pub data Regular (s : Status) : Type 0 where
  succeeded : s.result ≡ true → s.completion_id ≢ shutdown_key → Regular s
  lost : s.result ≡ false → s.last_error ≡ netname_deleted → Regular s
  cancelled :
      s.result ≡ false
      → s.last_error ≡ operation_aborted
      → s.completion_id ≢ shutdown_key
      → Regular s
  failed : s.result ≡ false → s.last_error ≡ other → s.completion_id ≢ shutdown_key → Regular s

-- The calls that statuses ask for: each one that names a consumer.
abbrev pub calls_of : List Status → List Completion
calls_of [] = []
calls_of (s ∷ ss) = completed s.result s ++ calls_of ss

abbrev shutdown : Status
shutdown = record {
  result = true;
  last_error = other;
  bytes_transferred = 0;
  completion_id = shutdown_key;
  overlapped = 0;
}

-- How many of the posts of Stop the system takes.
abbrev pub taken_posts : (ℕ → Bool) → ℕ → ℕ
taken_posts accepts zero = 0
taken_posts accepts (suc n) =
    let rest = taken_posts accepts n in if accepts n then suc rest else rest

abbrev with_port : IoService → List Status → IoService
with_port s ss = record s { port = ss }
