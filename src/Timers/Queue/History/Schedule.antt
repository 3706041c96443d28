-- ===== src/Timers/Queue/History/Schedule.antt =====
-- Scheduling keeps what holds of a timer queue.
use fast_port.Prelude.{
  ℕ, ◌+◌, ◌^◌, ◌⊎◌, ◌<◌, ◌≡◌, ◌≢◌, Bool, true, false, refl, List, [], ◌∷◌, if◌then◌else◌, arith,
  All, inl, inr,
}
use fast_port.Timers.Queue.{
  scheduled, running, QueueState, shutting_down, dead, Entry, TimerQueue, allocate_id, contains,
  schedule_impl,
}
use fast_port.Timers.Queue.Invariant.{Sound, contains_below}
use fast_port.Timers.Queue.History.{Inv}

pub queue_states : (s : QueueState) → (s ≡ running) ⊎ ((s ≡ shutting_down) ⊎ (s ≡ dead))
queue_states QueueState.running = inl refl
queue_states shutting_down = inr (inl refl)
queue_states dead = inr (inr refl)

below_next : (n m : ℕ) (es : List Entry) → n < m → All (λ e. e.id < n) es → All (λ e. e.id < m) es
below_next n m [] h v = tt
below_next n m (e ∷ es) h v = (omega arith, below_next n m es h v.1)

pub id_of-allocate : (n : ℕ) → 0 < n → n + 1 < 2 ^ 64 → allocate_id n ≡ (n, n + 1)
unfolding allocate_id
id_of-allocate n h k = ground arith

-- The entry that a schedule adds.
abbrev pub added : Bool → ℕ → ℕ → Entry
added is_periodic interval id = record {
  id = id;
  state = scheduled;
  is_periodic = is_periodic;
  interval = interval;
  handle = true;
  close_after_callback = false;
  listed = true;
  fired = false;
  callbacks = 0;
  waiting = false;
  closes = 0;
}

added-Sound :
    (is_periodic : Bool) (interval id : ℕ) → id ≢ 0 → Sound (added is_periodic interval id)
added-Sound is_periodic interval id h = ground arith

pub schedule_refused :
    (created is_periodic : Bool) (interval : ℕ) (q : TimerQueue)
    → q.queue_state ≢ running
    → schedule_impl created is_periodic interval q ≡ (0, q)
unfolding schedule_impl
schedule_refused created is_periodic interval q h = ground arith

pub schedule_running :
    (is_periodic : Bool) (interval : ℕ) (q : TimerQueue)
    → q.queue_state ≡ running
    → 0 < q.next_id
    → q.next_id + 1 < 2 ^ 64
    → contains q.next_id q.entries ≡ false
    → schedule_impl true is_periodic interval q ≡ (
      q.next_id,
      record q {
        next_id = q.next_id + 1;
        entries = added is_periodic interval q.next_id ∷ q.entries;
      },
    )
unfolding schedule_impl
schedule_running is_periodic interval q s p h c =
    let a = id_of-allocate q.next_id p h in ground (arith, a)

pub schedule_impl-Inv :
    (created is_periodic : Bool) (interval : ℕ) (q : TimerQueue)
    → q.next_id + 1 < 2 ^ 64
    → Inv q
    → Inv (schedule_impl created is_periodic interval q).1
unfolding schedule_impl
schedule_impl-Inv created is_periodic interval q h v = elim (queue_states q.queue_state) [
  | inl s ↦
      rw (s, id_of-allocate q.next_id v.small h, contains_below q.next_id q.entries v.fresh)
        (grown created)
  | inr (inl s) ↦ rw (schedule_refused created is_periodic interval q (ground arith)) v
  | inr (inr s) ↦ rw (schedule_refused created is_periodic interval q (ground arith)) v
]
  where
    upto : All (λ e. e.id < q.next_id + 1) q.entries
    upto = below_next q.next_id (q.next_id + 1) q.entries (omega arith) v.fresh

    grown :
        (created : Bool)
        → Inv (
            let r : ℕ × TimerQueue =
              if created
              then (
                q.next_id,
                record q {
                  queue_state = QueueState.running;
                  next_id = q.next_id + 1;
                  entries = added is_periodic interval q.next_id ∷ q.entries;
                },
              )
              else (0, record q { queue_state = QueueState.running; next_id = q.next_id + 1 }) in
            r.1)
    grown true = record {
      sound = (added-Sound is_periodic interval q.next_id (omega arith), v.sound);
      refused = λ r. ground arith;
      emptied = λ d. ground arith;
      fresh = (omega arith, upto);
      small = omega arith;
    }
    grown false = record {
      sound = v.sound;
      refused = λ r. ground arith;
      emptied = λ d. ground arith;
      fresh = upto;
      small = omega arith;
    }
