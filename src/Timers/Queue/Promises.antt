-- ===== src/Timers/Queue/Promises.antt =====
-- What every history of a timer queue keeps: no handle is closed twice or left open, no task starts
-- after its timer was cancelled, and nothing is left behind a shutdown.
use fast_port.Prelude.{
  ℕ, ◌+◌, ◌^◌, ◌<◌, ◌≡◌, ◌≢◌, Bool, true, false, refl, List, [], ◌∷◌, arith, All, sym, subst, ◌∙◌,
}
use fast_port.Timers.Queue.{
  running, dead, Entry, TimerQueue, contains, at, schedule_impl, begin_entry, end_entry,
  cancel_entry, close_entry, cancel_impl,
}
use fast_port.Timers.Queue.Invariant.{
  Sound, open_handles, begin_entry-Sound, end_entry-Sound, close_entry-Sound, at-All, Within,
  contains_below,
}
use fast_port.Timers.Queue.History.{
  Step, schedules, fires, returns, cancels, waited, shuts_down, cancels_next, is_dead, Reach, here,
  next, Inv,
}
use mathlib.Core.List.{Memᴰ}
use fast_port.Timers.Queue.History.Schedule.{
  added, schedule_running, schedule_refused, schedule_impl-Inv,
}
use fast_port.Timers.Queue.History.Cancel.{
  with_entry-Inv, same-begin, same-end, same-cancel, cancel_impl-Inv,
}
use fast_port.Timers.Queue.History.Shutdown.{cancel_next-Inv, begin_shutdown-Inv, end_shutdown-Inv}

Step-Inv : {q r : TimerQueue} → Step q r → Inv q → Inv r
unfolding close_entry
Step-Inv {q} (schedules created is_periodic interval h) v =
    schedule_impl-Inv created is_periodic interval q h v
Step-Inv {q} (fires id h) v =
    with_entry-Inv id (λ e. (begin_entry e).1) (λ e p s. begin_entry-Sound e s)
      (λ e. (same-begin e).0) (λ e l. sym (same-begin e).1 ∙ l) q h v
Step-Inv {q} (returns id h) v =
    with_entry-Inv id end_entry end_entry-Sound (λ e. (same-end e).0)
      (λ e l. sym (same-end e).1 ∙ l) q h v
Step-Inv {q} (cancels id current h) v = cancel_impl-Inv id current q h v
Step-Inv {q} (waited id h) v =
    with_entry-Inv id close_entry (λ e p s. close_entry-Sound e p.0 s) (λ e. refl) (λ e l. l) q h v
Step-Inv {q} shuts_down v = begin_shutdown-Inv q v
Step-Inv {q} (cancels_next current h) v = cancel_next-Inv current q h v
Step-Inv {q} (is_dead s e) v = end_shutdown-Inv q s e v

Reach-Inv : {q : TimerQueue} → Reach q → Inv q
Reach-Inv here = record {
  sound = tt;
  refused = λ r. tt;
  emptied = λ d. ground arith;
  fresh = tt;
  small = omega arith;
}
Reach-Inv (next r st) = Step-Inv st (Reach-Inv r)

the_one : (P : Entry → Type 0) {e : Entry} (es : List Entry) → All P es → Memᴰ e es → P e
the_one P [] v m = elim m [ ]
the_one P (x ∷ es) v (Memᴰ.head same) = subst P (sym same) v.0
the_one P (x ∷ es) v (Memᴰ.tail m) = the_one P es v.1 m

Reach-Sound : {q : TimerQueue} {e : Entry} → Reach q → Memᴰ e q.entries → Sound e
Reach-Sound {q} r m = the_one Sound q.entries (Reach-Inv r).sound m

-- In every history of a timer queue, each handle that was created is either still kept and was never
-- closed, or was closed once and is kept no more.
pub handles_balance :
    {q : TimerQueue} {e : Entry} → Reach q → Memᴰ e q.entries → e.closes + open_handles e ≡ 1
handles_balance r m = (Reach-Sound r m).balance

-- In every history of a timer queue, a timer that is off the map, inside none of its callbacks and
-- waited for by no cancel has had its handle closed exactly once.
pub cancelled_is_closed :
    {q : TimerQueue} {e : Entry}
    → Reach q
    → Memᴰ e q.entries
    → e.listed ≡ false
    → e.callbacks ≡ 0
    → e.waiting ≡ false
    → e.closes ≡ 1
cancelled_is_closed r m l c w = let v = Reach-Sound r m in ground arith

-- In every history of a timer queue, where an entry leaves the map and is marked cancelled in one step, the
-- task of a timer that is off the map does not start again, if the system fires a one-shot timer at most
-- once.
pub cancelled_never_starts :
    {q : TimerQueue} {e : Entry}
    → Reach q
    → Memᴰ e q.entries
    → e.listed ≡ false
    → (e.is_periodic ≡ false → e.fired ≡ false)
    → (begin_entry e).0 ≡ false
unfolding begin_entry
cancelled_never_starts r m l once = let v = Reach-Sound r m in ground arith

contains_nothing : (id : ℕ) (es : List Entry) → All (Within []) es → contains id es ≡ false
unfolding contains
contains_nothing id [] v = refl
contains_nothing id (e ∷ es) v = ground (arith, v.0, contains_nothing id es v.1)

pub cancel_found :
    (id : ℕ) (current : Bool) (q : TimerQueue)
    → id ≢ 0
    → contains id q.entries ≡ true
    → cancel_impl id current q
      ≡ (true, record q { entries = at id (cancel_entry current) q.entries })
unfolding cancel_impl
cancel_found id current q h c = ground arith

pub cancel_missing :
    (id : ℕ) (current : Bool) (q : TimerQueue)
    → contains id q.entries ≡ false
    → cancel_impl id current q ≡ (false, q)
unfolding cancel_impl
cancel_missing id current q c = ground arith

-- In every history of a timer queue whose shutdown has ended, no timer can be scheduled and none is
-- left to be cancelled.
pub dead_is_empty :
    {q : TimerQueue} (created is_periodic current : Bool) (interval id : ℕ)
    → Reach q
    → q.queue_state ≡ dead
    → (schedule_impl created is_periodic interval q ≡ (0, q))
      × (cancel_impl id current q ≡ (false, q))
dead_is_empty {q} created is_periodic current interval id r d = (
  schedule_refused created is_periodic interval q (ground (arith, d)),
  cancel_missing id current q (contains_nothing id q.entries nothing),
)
  where
    v : Inv q
    v = Reach-Inv r

    nothing : All (Within []) q.entries
    nothing =
        subst (λ ids. All (Within ids) q.entries) (v.emptied d) (v.refused (ground (arith, d)))

-- What a schedule on a running queue does.
pub schedule_known :
    {q : TimerQueue} (is_periodic : Bool) (interval : ℕ)
    → Reach q
    → q.queue_state ≡ running
    → q.next_id + 1 < 2 ^ 64
    → (schedule_impl true is_periodic interval q ≡ (
      q.next_id,
      record q {
        next_id = q.next_id + 1;
        entries = added is_periodic interval q.next_id ∷ q.entries;
      },
    ))
      × (q.next_id ≢ 0)
schedule_known {q} is_periodic interval r s h =
    let v = Reach-Inv r in
    (
      schedule_running is_periodic interval q s v.small h
          (contains_below q.next_id q.entries v.fresh),
      omega (arith, v.small),
    )

-- In every history that leaves the queue running with ids not run out, the id of a new timer is not the
-- invalid one, cancels it once, and only once.
pub schedule-cancel :
    {q : TimerQueue} (is_periodic : Bool) (interval : ℕ)
    → Reach q
    → q.queue_state ≡ running
    → q.next_id + 1 < 2 ^ 64
    → let (id, q') = schedule_impl true is_periodic interval q in
      let (first, q'') = cancel_impl id false q' in
      (id ≢ 0) × (first ≡ true) × ((cancel_impl id false q'').0 ≡ false)
unfolding contains at
schedule-cancel {q} is_periodic interval r s h =
    let v = Reach-Inv r in
    let n = q.next_id in
    let unseen : contains n (at n (cancel_entry false) q.entries) ≡ false =
      contains_below n (at n (cancel_entry false) q.entries) (
        at-All n (cancel_entry false) (λ e same w. rw (same-cancel false e).0 w) (λ e other w. w)
          q.entries v.fresh) in
    let e = added is_periodic interval n in
    let q' : TimerQueue = record q { next_id = n + 1; entries = e ∷ q.entries } in
    let q'' : TimerQueue = record q' { entries = at n (cancel_entry false) (e ∷ q.entries) } in
    let known = schedule_known is_periodic interval r s h in
    rw
      (
        known.0,
        cancel_found n false q' known.1 (ground arith),
        cancel_missing n false q'' (ground (arith, unseen, same-cancel false e)),
      )
      (known.1, refl, refl)
