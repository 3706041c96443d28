-- ===== src/Server/Registry/Membership.antt =====
-- Which sessions a container holds.
use fast_port.Prelude.{
  ℕ, ◌+◌, ◌-◌, ◌≤◌, ◌≡◌, ◌≢◌, refl, ap, ◌∙◌, Bool, true, false, List, [], ◌∷◌, ◌==◌, if◌then◌else◌,
  arith, Bool_cases,
}
use fast_port.Server.Container.{Container, contains_key, add, remove}
use fast_port.Server.Registry.{Change, accepted, ended, register, unregister, change, changes}

module _ {T : Type 0} where
  -- How many entries have a key.
  abbrev pub count : ℕ → Container T → ℕ
  count key [] = 0
  count key ((k, value) ∷ entries) = if k == key then count key entries + 1 else count key entries

  count-contains_key : (key : ℕ) (c : Container T) → contains_key key c ≡ false → count key c ≡ 0
  unfolding contains_key
  count-contains_key key [] h = refl
  count-contains_key key ((k, value) ∷ entries) h =
      let rest = count-contains_key key entries in ground (arith, rest, h)

  contains_key-count : (key : ℕ) (c : Container T) → contains_key key c ≡ true → count key c ≢ 0
  unfolding contains_key
  contains_key-count key [] h = absurd (ground arith)
  contains_key-count key ((k, value) ∷ entries) h =
      let rest = contains_key-count key entries in ground (arith, rest, h)

  count-remove :
      (key gone : ℕ) (c : Container T)
      → count key (remove gone c).1 ≡ (if key == gone then count key c - 1 else count key c)
  unfolding remove
  count-remove key gone [] = ground arith
  count-remove key gone ((k, value) ∷ entries) =
      let rest = count-remove key gone entries in ground (arith, rest)

  -- Whether the last change of a session was that it was accepted; with none, whether it was held.
  abbrev pub live : ℕ → List (Change T) → ℕ → ℕ
  live id [] before = before
  live id (accepted k session ∷ cs) before = live id cs (if k == id then 1 else before)
  live id (ended k ∷ cs) before = live id cs (if k == id then 0 else before)

  add-count :
      (id : ℕ) (k : ℕ) (session : T) (sessions : Container T)
      → count id sessions ≤ 1
      → count id (add k session sessions).1 ≡ (if k == id then 1 else count id sessions)
  unfolding add
  add-count id k session sessions h =
      let same : k ≡ id → count k sessions ≡ count id sessions =
        λ e. ap (λ j. count j sessions) e in
      Bool_cases
        (λ (r : Bool × Container T). count id r.1 ≡ (if k == id then 1 else count id sessions))
        (contains_key k sessions)
        (λ e. let some = contains_key-count k sessions e in ground (arith, some, same, h))
        (λ e. let none = count-contains_key k sessions e in ground (arith, none, same))

  one_change :
      (id : ℕ) (c : Change T) (sessions : Container T)
      → count id sessions ≤ 1
      → (count id (change c sessions) ≡ live id (c ∷ []) (count id sessions))
        × (count id (change c sessions) ≤ 1)
  unfolding change register unregister
  one_change id (accepted k session) sessions h =
      let one = add-count id k session sessions h in (one, ground (arith, one, h))
  one_change id (ended k) sessions h =
      let one = count-remove id k sessions in (ground (arith, one, h), ground (arith, one, h))

  -- Whatever sessions are accepted and end, in any order: the container holds a session once when the last
  -- change of its id was that it was accepted, and not at all when it was that it ended; an id without a
  -- change is held as before.
  pub changes-live :
      (id : ℕ) (cs : List (Change T)) (sessions : Container T)
      → count id sessions ≤ 1
      → count id (changes cs sessions) ≡ live id cs (count id sessions)
  unfolding changes
  changes-live id [] sessions h = refl
  changes-live id (accepted k session ∷ cs) sessions h =
      let one = one_change id (accepted k session) sessions h in
      changes-live id cs (change (accepted k session) sessions) one.1 ∙ ap (live id cs) one.0
  changes-live id (ended k ∷ cs) sessions h =
      let one = one_change id (ended k) sessions h in
      changes-live id cs (change (ended k) sessions) one.1 ∙ ap (live id cs) one.0
