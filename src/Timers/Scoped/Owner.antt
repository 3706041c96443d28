-- ===== src/Timers/Scoped/Owner.antt =====
-- One handle owns a timer, whatever way it was moved.
use fast_port.Prelude.{ℕ, ◌≡◌, ◌≢◌, refl, ◌∙◌, Bool, false, arith}
use fast_port.Timers.Queue.{TimerQueue, contains, cancel_impl}
use fast_port.Timers.Queue.Invariant.{contains-cancel_impl}
use fast_port.Timers.Api.{cancel}
use fast_port.Timers.Scoped.{
  empty, make_scoped, drop_timer, move_timer, assign_timer, release_timer,
}

drop-make_scoped :
    (id : ℕ) (current : Bool) (q : TimerQueue)
    → id ≢ 0
    → drop_timer current (make_scoped id) q ≡ (cancel_impl id current q).1
unfolding drop_timer make_scoped cancel
drop-make_scoped id current q h = ground arith

drop-empty : (current : Bool) (q : TimerQueue) → drop_timer current empty q ≡ q
unfolding drop_timer
drop-empty current q = refl

-- A timer in a handle that is moved into a second one and from there assigned to a third survives the
-- deaths of the first two, and is off the map when the third dies; the assignment takes the timer that
-- the third held before off the map; a released handle cancels nothing.
pub move_timer-owner :
    (id old : ℕ) (current : Bool) (q : TimerQueue)
    → id ≢ 0
    → old ≢ 0
    → let (second, first') = move_timer (make_scoped id) in
      let (third, second', q') = assign_timer current (make_scoped old) second q in
      (contains old q'.entries ≡ false)
      × (drop_timer current first' (drop_timer current second' q') ≡ q')
      × (contains id (drop_timer current third q').entries ≡ false)
      × (drop_timer current (release_timer third).1 q' ≡ q')
unfolding move_timer assign_timer release_timer
move_timer-owner id old current q h k =
    let q' : TimerQueue = (cancel_impl old current q).1 in
    rw (drop-make_scoped old current q k, drop-make_scoped id current q' h)
      (
        contains-cancel_impl old current q k,
        drop-empty current (drop_timer current empty q') ∙ drop-empty current q',
        contains-cancel_impl id current q' h,
        drop-empty current q',
      )
