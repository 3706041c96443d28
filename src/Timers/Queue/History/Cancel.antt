-- ===== src/Timers/Queue/History/Cancel.antt =====
-- Callbacks and cancelling keep what holds of a timer queue.
use fast_port.Prelude.{ℕ, ◌≡◌, ◌≢◌, Bool, true, false, arith, Bool_cases, eq_cases}
use fast_port.Timers.Queue.{
  Entry, TimerQueue, contains, begin_entry, close_handle, end_entry, cancel_entry, cancel_impl,
}
use fast_port.Timers.Queue.Invariant.{Sound, cancel_entry-Sound, Each, at-keeps, at-All}
use fast_port.Timers.Queue.History.{with_entry, Inv}

-- A call on one entry that keeps the entry sound, keeps its id and does not put it back on the map.
module _ {P : Entry → Type 0} (id : ℕ) (f : Entry → Entry)
    (sound : (e : Entry) → P e → Sound e → Sound (f e)) (same : (e : Entry) → (f e).id ≡ e.id)
    (off : (e : Entry) → (f e).listed ≡ true → e.listed ≡ true) where
  pub with_entry-Inv : (q : TimerQueue) → Each id P q.entries → Inv q → Inv (with_entry id f q)
  with_entry-Inv q h v = record {
    sound = at-keeps id f sound q.entries h v.sound;
    refused = λ r.
        at-All id f (λ e here w l. rw (same e) (w (off e l))) (λ e other w. w) q.entries
          (v.refused r);
    emptied = v.emptied;
    fresh = at-All id f (λ e here w. rw (same e) w) (λ e other w. w) q.entries v.fresh;
    small = v.small;
  }

pub same-begin : (e : Entry) → ((begin_entry e).1.id ≡ e.id) × ((begin_entry e).1.listed ≡ e.listed)
unfolding begin_entry
same-begin e = ground arith

pub same-end : (e : Entry) → ((end_entry e).id ≡ e.id) × ((end_entry e).listed ≡ e.listed)
unfolding end_entry close_handle
same-end e = ground arith

pub same-cancel :
    (current : Bool) (e : Entry)
    → ((cancel_entry current e).id ≡ e.id) × ((cancel_entry current e).listed ≡ false)
unfolding cancel_entry
same-cancel current e = ground arith

pub cancel_impl-Inv :
    (id : ℕ) (current : Bool) (q : TimerQueue)
    → Each id (λ e. current ≡ true → e.callbacks ≢ 0) q.entries
    → Inv q
    → Inv (cancel_impl id current q).1
unfolding cancel_impl
cancel_impl-Inv id current q h v =
    eq_cases (λ (r : Bool × TimerQueue). Inv r.1) id 0 (λ e. v)
      (λ e.
        Bool_cases (λ (r : Bool × TimerQueue). Inv r.1) (contains id q.entries)
          (λ found.
            with_entry-Inv id (cancel_entry current) (cancel_entry-Sound current)
              (λ e. (same-cancel current e).0) (λ e l. ground (arith, same-cancel current e)) q h v)
          (λ missing. v))
