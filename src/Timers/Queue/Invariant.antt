-- ===== src/Timers/Queue/Invariant.antt =====
-- What holds of each entry of the timer queue, and that what a call does to an entry keeps it.
use fast_port.Prelude.{
  ℕ, ◌+◌, ◌<◌, ◌≡◌, ◌≢◌, Bool, true, false, refl, List, [], ◌∷◌, ◌==◌, if◌then◌else◌, arith, All,
  Bool_cases, eq_cases,
}
use fast_port.Timers.Queue.{
  cancelled, Entry, TimerQueue, at, contains, cancel_impl, listed_ids, begin_entry, close_handle,
  finished, end_entry, cancel_entry, close_entry,
}

abbrev pub open_handles : Entry → ℕ
open_handles e = if e.handle then 1 else 0

-- A one-shot timer is fired once, by what CreateThreadpoolTimer and SetThreadpoolTimer document.
abbrev pub Spent : Entry → Type 0
Spent e = (e.is_periodic ≡ false) × (e.fired ≡ true)

pub record Sound (e : Entry) : Type 0 where
  pub balance : e.closes + open_handles e ≡ 1
  pub registered :
      e.listed ≡ true
      → (e.handle ≡ true)
        × (e.close_after_callback ≡ false)
        × (e.waiting ≡ false)
        × (e.state ≢ cancelled)
  pub owed : e.listed ≡ false → e.handle ≡ true → e.waiting ≡ false → e.close_after_callback ≡ true
  pub busy : e.close_after_callback ≡ true → e.callbacks ≢ 0
  pub awaited : e.waiting ≡ true → (e.close_after_callback ≡ false) × (e.handle ≡ true)
  pub over : e.listed ≡ false → e.state ≢ cancelled → Spent e
  pub named : e.id ≢ 0
  pub begun : e.callbacks ≢ 0 → e.fired ≡ true

pub begin_entry-Sound : (e : Entry) → Sound e → Sound (begin_entry e).1
unfolding begin_entry
begin_entry-Sound e v = ground arith

pub end_entry-Sound : (e : Entry) → e.callbacks ≢ 0 → Sound e → Sound (end_entry e)
unfolding end_entry close_handle finished
end_entry-Sound e h v = ground arith

pub cancel_entry-Sound :
    (current : Bool) (e : Entry)
    → (current ≡ true → e.callbacks ≢ 0)
    → Sound e
    → Sound (cancel_entry current e)
unfolding cancel_entry
cancel_entry-Sound current e h v = ground arith

pub close_entry-Sound : (e : Entry) → e.waiting ≡ true → Sound e → Sound (close_entry e)
unfolding close_entry
close_entry-Sound e h v = ground arith

-- A condition on the entries that a call was given.
abbrev pub Each {ℓ} : ℕ → (Entry → Type ℓ) → List Entry → Type ℓ
Each id P es = All (λ e. e.id ≡ id → P e) es

pub at-All :
    {P Q : Entry → Type 0} (id : ℕ) (f : Entry → Entry)
    → ((e : Entry) → e.id ≡ id → P e → Q (f e))
    → ((e : Entry) → e.id ≢ id → P e → Q e)
    → (es : List Entry) → All P es
    → All Q (at id f es)
unfolding at
at-All id f hit miss [] v = tt
at-All {Q = Q} id f hit miss (e ∷ es) v = (
  eq_cases Q e.id id (λ same. hit e same v.0) (λ other. miss e other v.0),
  at-All id f hit miss es v.1,
)

-- The same for a call on one entry that keeps a condition where it is allowed.
pub at-keeps :
    {P Q : Entry → Type 0} (id : ℕ) (f : Entry → Entry)
    → ((e : Entry) → P e → Q e → Q (f e))
    → (es : List Entry) → Each id P es
    → All Q es
    → All Q (at id f es)
at-keeps {P} {Q} id f step es h v =
    at-All id f (λ e same w. step e (w.0 same) w.1) (λ e other w. w.1) es (both es h v)
  where
    both : (es : List Entry) → Each id P es → All Q es → All (λ e. (e.id ≡ id → P e) × Q e) es
    both [] h v = tt
    both (e ∷ es) h v = ((h.0, v.0), both es h.1 v.1)

-- An entry that the map still holds has its id among some ids.
abbrev pub elem : ℕ → List ℕ → Bool
elem n [] = false
elem n (x ∷ xs) = if n == x then true else elem n xs

abbrev pub Within : List ℕ → Entry → Type 0
Within ids e = e.listed ≡ true → elem e.id ids ≡ true

Within-more :
    (x : ℕ) (ids : List ℕ) (es : List Entry) → All (Within ids) es → All (Within (x ∷ ids)) es
Within-more x ids [] v = tt
Within-more x ids (e ∷ es) v = ((λ l. ground (arith, v.0 l)), Within-more x ids es v.1)

pub listed_ids-Within : (es : List Entry) → All (Within (listed_ids es)) es
unfolding listed_ids
listed_ids-Within [] = tt
listed_ids-Within (e ∷ es) =
    Bool_cases (λ ids. All (Within ids) (e ∷ es)) e.listed
      (λ held. ((λ l. ground arith), Within-more e.id (listed_ids es) es (listed_ids-Within es)))
      (λ gone. ((λ l. ground arith), listed_ids-Within es))

-- An id above all others is in no entry, and the entries of an id that is not found are off the map.
pub contains_below : (n : ℕ) (es : List Entry) → All (λ e. e.id < n) es → contains n es ≡ false
unfolding contains
contains_below n [] v = refl
contains_below n (e ∷ es) v = ground (arith, contains_below n es v.1)

pub contains_unlisted :
    (n : ℕ) (es : List Entry) → contains n es ≡ false → All (λ e. e.id ≡ n → e.listed ≡ false) es
unfolding contains
contains_unlisted n [] h = tt
contains_unlisted n (e ∷ es) h = ((λ same. ground arith), contains_unlisted n es (ground arith))

-- A cancelled id is found no more.
pub contains-cancel_entry :
    (id : ℕ) (current : Bool) (es : List Entry)
    → contains id (at id (cancel_entry current) es) ≡ false
unfolding contains at cancel_entry
contains-cancel_entry id current [] = refl
contains-cancel_entry id current (e ∷ es) =
    let rest = contains-cancel_entry id current es in ground (arith, rest)

pub contains-cancel_impl :
    (id : ℕ) (current : Bool) (q : TimerQueue)
    → id ≢ 0
    → contains id (cancel_impl id current q).1.entries ≡ false
unfolding cancel_impl
contains-cancel_impl id current q h =
    let gone = contains-cancel_entry id current q.entries in ground (arith, gone)
