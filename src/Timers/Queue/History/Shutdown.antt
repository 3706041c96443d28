-- ===== src/Timers/Queue/History/Shutdown.antt =====
-- The steps of a shutdown keep what holds of a timer queue.
use fast_port.Prelude.{
  ℕ, ◌⊎◌, ◌≡◌, ◌≢◌, Bool, true, false, refl, List, [], ◌∷◌, arith, All, Bool_cases, eq_cases, ap,
  sym, ◌∙◌, inl, inr,
}
use fast_port.Timers.Queue.{
  running, shutting_down, Entry, TimerQueue, contains, at, cancel_entry, cancel_impl, listed_ids,
  begin_shutdown, cancel_next, end_shutdown,
}
use fast_port.Timers.Queue.Invariant.{
  Sound, Each, at-All, Within, listed_ids-Within, contains_unlisted,
}
use fast_port.Timers.Queue.History.{Inv}
use fast_port.Timers.Queue.History.Schedule.{queue_states}
use fast_port.Timers.Queue.History.Cancel.{same-cancel, cancel_impl-Inv}

-- The id that Shutdown has just cancelled is no longer needed to name the entries on the map.
cancelled-Within :
    (current : Bool) (id : ℕ) (ids : List ℕ) (es : List Entry)
    → All (Within (id ∷ ids)) es
    → All (Within ids) (at id (cancel_entry current) es)
cancelled-Within current id ids es v =
    at-All id (cancel_entry current) (λ e here w l. ground (arith, same-cancel current e))
      (λ e other w l. ground arith) es v

absent-Within :
    (id : ℕ) (ids : List ℕ) (es : List Entry)
    → All (λ e. e.id ≡ id → e.listed ≡ false) es
    → All (Within (id ∷ ids)) es
    → All (Within ids) es
absent-Within id ids [] h v = tt
absent-Within id ids (e ∷ es) h v = ((λ l. ground arith), absent-Within id ids es h.1 v.1)

none_is_0 : (es : List Entry) → All Sound es → All (λ e. e.id ≡ 0 → e.listed ≡ false) es
none_is_0 [] v = tt
none_is_0 (e ∷ es) v = ((λ z. ground arith), none_is_0 es v.1)

All-Each : (P : Entry → Type 0) (id : ℕ) (es : List Entry) → All P es → Each id P es
All-Each P id [] v = tt
All-Each P id (e ∷ es) v = ((λ same. v.0), All-Each P id es v.1)

cancel_impl-Within :
    (id : ℕ) (ids : List ℕ) (current : Bool) (q : TimerQueue)
    → All Sound q.entries
    → All (Within (id ∷ ids)) q.entries
    → All (Within ids) (cancel_impl id current q).1.entries
unfolding cancel_impl
cancel_impl-Within id ids current q s v =
    eq_cases (λ (r : Bool × TimerQueue). All (Within ids) r.1.entries) id 0
      (λ z. absent-Within id ids q.entries (rw z (none_is_0 q.entries s)) v)
      (λ z.
        Bool_cases (λ (r : Bool × TimerQueue). All (Within ids) r.1.entries) (contains id q.entries)
          (λ found. cancelled-Within current id ids q.entries v)
          (λ missing. absent-Within id ids q.entries (contains_unlisted id q.entries missing) v))

kept-cancel_impl :
    (id : ℕ) (current : Bool) (q : TimerQueue)
    → (cancel_impl id current q).1.queue_state ≡ q.queue_state
unfolding cancel_impl
kept-cancel_impl id current q = ground arith

lists : (ids : List ℕ) → (ids ≡ []) ⊎ ((id : ℕ) × (rest : List ℕ) × (ids ≡ id ∷ rest))
lists [] = inl refl
lists (id ∷ rest) = inr (id, rest, refl)

nothing_next : (current : Bool) (q : TimerQueue) → q.pending ≡ [] → cancel_next current q ≡ q
unfolding cancel_next
nothing_next current q h =
    ap
      (λ (ids : List ℕ). elim ids [
        | [] ↦ q
        | n ∷ rest ↦ (cancel_impl n current (record q { pending = rest })).1
      ])
      h

something_next :
    (current : Bool) (q : TimerQueue) (id : ℕ) (ids : List ℕ)
    → q.pending ≡ id ∷ ids
    → cancel_next current q ≡ (cancel_impl id current (record q { pending = ids })).1
unfolding cancel_next
something_next current q id ids h =
    ap
      (λ (ids : List ℕ). elim ids [
        | [] ↦ q
        | n ∷ rest ↦ (cancel_impl n current (record q { pending = rest })).1
      ])
      h

aside :
    (id : ℕ) (current : Bool) (ids : List ℕ) (q : TimerQueue)
    → (cancel_impl id current (record q { pending = ids })).1
      ≡ record (cancel_impl id current q).1 { pending = ids }
unfolding cancel_impl
aside id current ids q = ground arith

pub cancel_next-Inv :
    (current : Bool) (q : TimerQueue)
    → All (λ e. current ≡ true → e.callbacks ≢ 0) q.entries
    → Inv q
    → Inv (cancel_next current q)
cancel_next-Inv current q h v = elim (lists q.pending) [
  | inl e ↦ rw (nothing_next current q e) v
  | inr (id, ids, e) ↦
      let w =
        cancel_impl-Inv id current q
          (All-Each (λ e. current ≡ true → e.callbacks ≢ 0) id q.entries h) v in
      let state = kept-cancel_impl id current q in
      rw (something_next current q id ids e, aside id current ids q)
        (record {
          sound = w.sound;
          refused = λ r.
              cancel_impl-Within id ids current q v.sound
                (rw (sym e) (v.refused (λ z. r (state ∙ z))));
          emptied = λ d. ground (arith, v.emptied (sym state ∙ d));
          fresh = w.fresh;
          small = w.small;
        })
]

pub begin_shutdown-Inv : (q : TimerQueue) → Inv q → Inv (begin_shutdown q)
unfolding begin_shutdown
begin_shutdown-Inv q v = elim (queue_states q.queue_state) [
  | inl s ↦ rw (first s) (record {
    sound = v.sound;
    refused = λ r. listed_ids-Within q.entries;
    emptied = λ d. ground arith;
    fresh = v.fresh;
    small = v.small;
  })
  | inr s ↦ rw (again (ground (arith, s))) v
]
  where
    first :
        q.queue_state ≡ running
        → begin_shutdown q
          ≡ record q { queue_state = shutting_down; pending = listed_ids q.entries }
    first s = ground arith

    again : q.queue_state ≢ running → begin_shutdown q ≡ q
    again s = ground arith

pub end_shutdown-Inv :
    (q : TimerQueue) → q.queue_state ≡ shutting_down → q.pending ≡ [] → Inv q → Inv (end_shutdown q)
unfolding end_shutdown
end_shutdown-Inv q s e v = record {
  sound = v.sound;
  refused = λ r. v.refused (ground (arith, s));
  emptied = λ d. e;
  fresh = v.fresh;
  small = v.small;
}
