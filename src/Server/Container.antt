-- ===== src/Server/Container.antt =====
-- Container of LibCommons/Container.ixx, with numbers as keys: the hash map is a list of entries, and its
-- order is the list's. Each call is one step, since it holds the lock.
use fast_port.Prelude.{
  ℕ, Bool, true, false, Option, none, some, List, [], ◌∷◌, length, ◌==◌, if◌then◌else◌, ◌+◌,
}

abbrev pub Container : Type 0 → Type 0
Container T = List (ℕ × T)

unfoldable pub contains_key : {T : Type 0} → ℕ → Container T → Bool
contains_key key [] = false
contains_key key ((k, value) ∷ entries) = if k == key then true else contains_key key entries

-- `emplace` keeps an entry that is there.
unfoldable pub add : {T : Type 0} → ℕ → T → Container T → Bool × Container T
add key value c = if contains_key key c then (false, c) else (true, (key, value) ∷ c)

unfoldable pub find_if : {T : Type 0} → (ℕ → T → Bool) → Container T → Option T
find_if predicate [] = none
find_if predicate ((k, value) ∷ entries) =
    if predicate k value then some value else find_if predicate entries

-- The entries that a predicate does not hold of, and how many it holds of.
unfoldable pub remove_if : {T : Type 0} → (ℕ → T → Bool) → Container T → ℕ × Container T
remove_if predicate [] = (0, [])
remove_if predicate ((k, value) ∷ entries) =
    let (removed, kept) = remove_if predicate entries in
    if predicate k value then (removed + 1, kept) else (removed, (k, value) ∷ kept)

unfoldable pub remove : {T : Type 0} → ℕ → Container T → Bool × Container T
remove key [] = (false, [])
remove key ((k, value) ∷ entries) =
    let (found, kept) = remove key entries in
    if k == key then (true, entries) else (found, (k, value) ∷ kept)

abbrev pub snapshot : {T : Type 0} → Container T → List (ℕ × T)
snapshot c = c

abbrev pub size : {T : Type 0} → Container T → ℕ
size c = length c

abbrev pub clear : {T : Type 0} → Container T → Container T
clear c = []
