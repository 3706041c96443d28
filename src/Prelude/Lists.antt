-- ===== src/Prelude/Lists.antt =====
-- Lists over the native numbers: indexing, slices, tables and writes of a block.
use Prim.Native.Nat.{ℕ, zero, suc, ◌+◌, ◌-◌, ◌≤◌, ◌<◌}
use mathlib.Core.Path.{◌≡◌, refl, ap, ap₂, sym, ◌∙◌, fun_ext}
use mathlib.Core.List.{List, [], ◌∷◌, ◌++◌}
use native.Mathlib.Nat.{zero-sub}
use native.Mathlib.Omega.{arith}
use fast_port.Prelude.Tests.{ltb, if◌then◌else◌, ltb_cases, lt→ltb, le→ltb}

module _ {ℓ} {A : Type ℓ} where
  abbrev pub length : List A → ℕ
  length [] = 0
  length (_ ∷ xs) = suc (length xs)

  abbrev pub get_or : List A → ℕ → A → A
  get_or [] _ d = d
  get_or (x ∷ _) zero _ = x
  get_or (_ ∷ xs) (suc i) d = get_or xs i d

  abbrev pub take : ℕ → List A → List A
  take zero _ = []
  take (suc n) [] = []
  take (suc n) (x ∷ xs) = x ∷ take n xs

  abbrev pub drop : ℕ → List A → List A
  drop zero xs = xs
  drop (suc n) [] = []
  drop (suc n) (x ∷ xs) = drop n xs

  abbrev pub replicate : ℕ → A → List A
  replicate zero a = []
  replicate (suc n) a = a ∷ replicate n a

  -- `memcpy` of a block to an index; what would fall outside is dropped.
  abbrev pub blit : List A → ℕ → List A → List A
  blit [] i ys = []
  blit (x ∷ xs) (suc i) ys = x ∷ blit xs i ys
  blit (x ∷ xs) zero [] = x ∷ xs
  blit (x ∷ xs) zero (y ∷ ys) = y ∷ blit xs zero ys

  -- The list of the first `n` values of a function.
  abbrev pub tabulate : ℕ → (ℕ → A) → List A
  tabulate zero f = []
  tabulate (suc n) f = f 0 ∷ tabulate n (λ i. f (suc i))

  pub length-append : (xs ys : List A) → length (xs ++ ys) ≡ length xs + length ys
  length-append [] ys = omega arith
  length-append (x ∷ xs) ys = omega (arith, length-append xs ys)

  pub length-replicate : (n : ℕ) (a : A) → length (replicate n a) ≡ n
  length-replicate zero a = refl
  length-replicate (suc n) a = ap suc (length-replicate n a)

  pub length-blit : (xs : List A) (i : ℕ) (ys : List A) → length (blit xs i ys) ≡ length xs
  length-blit [] i ys = refl
  length-blit (x ∷ xs) (suc i) ys = ap suc (length-blit xs i ys)
  length-blit (x ∷ xs) zero [] = refl
  length-blit (x ∷ xs) zero (y ∷ ys) = ap suc (length-blit xs zero ys)

  pub length-tabulate : (n : ℕ) (f : ℕ → A) → length (tabulate n f) ≡ n
  length-tabulate zero f = refl
  length-tabulate (suc n) f = ap suc (length-tabulate n (λ i. f (suc i)))

  pub length-take : (n : ℕ) (xs : List A) → n ≤ length xs → length (take n xs) ≡ n
  length-take zero xs h = refl
  length-take (suc n) [] h = absurd (omega arith)
  length-take (suc n) (x ∷ xs) h = ap suc (length-take n xs (omega arith))

  pub length-drop : (n : ℕ) (xs : List A) → length (drop n xs) ≡ length xs - n
  length-drop zero xs = omega arith
  length-drop (suc n) [] = omega arith
  length-drop (suc n) (x ∷ xs) = omega (arith, length-drop n xs)

  pub take-append-drop : (n : ℕ) (xs : List A) → take n xs ++ drop n xs ≡ xs
  take-append-drop zero xs = refl
  take-append-drop (suc n) [] = refl
  take-append-drop (suc n) (x ∷ xs) = ap (◌∷◌ x) (take-append-drop n xs)

  pub take_all : (xs : List A) (n : ℕ) → length xs ≤ n → take n xs ≡ xs
  take_all [] zero h = refl
  take_all [] (suc n) h = refl
  take_all (x ∷ xs) zero h = absurd (omega arith)
  take_all (x ∷ xs) (suc n) h = ap (◌∷◌ x) (take_all xs n (omega arith))

  pub get_or-take :
      (n : ℕ) (xs : List A) (i : ℕ) (d : A) → i < n → get_or (take n xs) i d ≡ get_or xs i d
  get_or-take zero xs i d h = absurd (omega arith)
  get_or-take (suc n) [] i d h = refl
  get_or-take (suc n) (x ∷ xs) zero d h = refl
  get_or-take (suc n) (x ∷ xs) (suc i) d h = get_or-take n xs i d (omega arith)

  pub get_or-drop :
      (n : ℕ) (xs : List A) (i : ℕ) (d : A) → get_or (drop n xs) i d ≡ get_or xs (n + i) d
  get_or-drop zero xs i d = ap (λ k. get_or xs k d) (omega arith)
  get_or-drop (suc n) [] i d = refl
  get_or-drop (suc n) (x ∷ xs) i d = rw (get_or-drop n xs i d) (ground arith)

  -- What stands at an index after a block is written.
  pub get_or-blit :
      (xs : List A) (i : ℕ) (ys : List A) (j : ℕ) (d : A)
      → j < length xs
      → get_or (blit xs i ys) j d ≡ (
          if ltb j i
          then get_or xs j d
          else if ltb j (i + length ys)
          then get_or ys (j - i) d
          else get_or xs j d)
  get_or-blit [] i ys j d h = absurd (omega arith)
  get_or-blit (x ∷ xs) zero [] j d h = ground arith
  get_or-blit (x ∷ xs) zero (y ∷ ys) zero d h = ground arith
  get_or-blit (x ∷ xs) zero (y ∷ ys) (suc j) d h = ground (arith, get_or-blit xs zero ys j d)
  get_or-blit (x ∷ xs) (suc i) ys zero d h = ground arith
  get_or-blit (x ∷ xs) (suc i) ys (suc j) d h = ground (arith, get_or-blit xs i ys j d)

  pub tabulate_ext :
      (n : ℕ) (f g : ℕ → A) → ((i : ℕ) → i < n → f i ≡ g i) → tabulate n f ≡ tabulate n g
  tabulate_ext zero f g h = refl
  tabulate_ext (suc n) f g h = λ k.
      h 0 (omega arith) k
      ∷ tabulate_ext n (λ i. f (suc i)) (λ i. g (suc i)) (λ i q. h (suc i) (omega arith)) k

  pub tabulate-get_or : (xs : List A) (d : A) → tabulate (length xs) (λ i. get_or xs i d) ≡ xs
  tabulate-get_or [] d = refl
  tabulate-get_or (x ∷ xs) d = ap (◌∷◌ x) (tabulate-get_or xs d)

  pub get_or-tabulate :
      (n : ℕ) (f : ℕ → A) (i : ℕ) (d : A) → i < n → get_or (tabulate n f) i d ≡ f i
  get_or-tabulate zero f i d h = absurd (omega arith)
  get_or-tabulate (suc n) f zero d h = refl
  get_or-tabulate (suc n) f (suc i) d h = get_or-tabulate n (λ j. f (suc j)) i d (omega arith)

  pub take-tabulate : (m n : ℕ) (f : ℕ → A) → m ≤ n → take m (tabulate n f) ≡ tabulate m f
  take-tabulate zero n f h = refl
  take-tabulate (suc m) zero f h = absurd (omega arith)
  take-tabulate (suc m) (suc n) f h =
      ap (◌∷◌ (f 0)) (take-tabulate m n (λ i. f (suc i)) (omega arith))

  pub drop-tabulate :
      (n m : ℕ) (f : ℕ → A) → drop n (tabulate m f) ≡ tabulate (m - n) (λ i. f (n + i))
  drop-tabulate zero m f =
      ap₂ tabulate (let e : m ≡ m - 0 = omega arith in e)
        (fun_ext (λ i. ap f (let e : i ≡ 0 + i = omega arith in e)))
  drop-tabulate (suc n) zero f = rw (zero-sub (suc n)) refl
  drop-tabulate (suc n) (suc m) f =
      drop-tabulate n m (λ i. f (suc i))
      ∙ ap₂ tabulate (let e : m - n ≡ suc m - suc n = omega arith in e)
          (fun_ext (λ i. ap f (let e : suc (n + i) ≡ suc n + i = omega arith in e)))

  pub drop_all : (xs : List A) (n : ℕ) → length xs ≤ n → drop n xs ≡ []
  drop_all [] zero h = refl
  drop_all [] (suc n) h = refl
  drop_all (x ∷ xs) zero h = absurd (omega arith)
  drop_all (x ∷ xs) (suc n) h = drop_all xs n (omega arith)

  pub blit-nil : (xs : List A) (i : ℕ) → blit xs i [] ≡ xs
  blit-nil [] i = refl
  blit-nil (x ∷ xs) zero = refl
  blit-nil (x ∷ xs) (suc i) = ap (◌∷◌ x) (blit-nil xs i)

  pub get_or-append :
      (xs ys : List A) (i : ℕ) (d : A)
      → get_or (xs ++ ys) i d
        ≡ (if ltb i (length xs) then get_or xs i d else get_or ys (i - length xs) d)
  get_or-append [] ys i d = ground arith
  get_or-append (x ∷ xs) ys zero d = ground arith
  get_or-append (x ∷ xs) ys (suc i) d = ground (arith, get_or-append xs ys i d)

  -- Two lists of one length with the same values at each index are equal.
  pub list_ext :
      (xs ys : List A) (d : A)
      → length xs ≡ length ys
      → ((i : ℕ) → i < length xs → get_or xs i d ≡ get_or ys i d)
      → xs ≡ ys
  list_ext [] [] d e h = refl
  list_ext [] (y ∷ ys) d e h = absurd (omega arith)
  list_ext (x ∷ xs) [] d e h = absurd (omega arith)
  list_ext (x ∷ xs) (y ∷ ys) d e h =
      λ k. h 0 (omega arith) k ∷ list_ext xs ys d (omega arith) (λ i q. h (suc i) (omega arith)) k

pub take-nil {ℓ} : (A : Type ℓ) (n : ℕ) → take {A = A} n [] ≡ []
take-nil A zero = refl
take-nil A (suc n) = refl

module _ {ℓ} {A : Type ℓ} where
  pub append-tabulate :
      (n : ℕ) (f : ℕ → A) (ys : List A) (d : A)
      → tabulate n f ++ ys
        ≡ tabulate (n + length ys) (λ i. if ltb i n then f i else get_or ys (i - n) d)
  append-tabulate n f ys d =
      list_ext _ _ d
        (omega (
          arith,
          length-append (tabulate n f) ys,
          length-tabulate n f,
          length-tabulate (n + length ys) (λ i. if ltb i n then f i else get_or ys (i - n) d),
        ))
        λ i l.
          let l' : i < n + length ys =
            omega (arith, length-append (tabulate n f) ys, length-tabulate n f) in
          rw
            (
              get_or-append (tabulate n f) ys i d,
              get_or-tabulate (n + length ys) (λ i. if ltb i n then f i else get_or ys (i - n) d) i
                  d l',
              length-tabulate n f,
            )
            (ltb_cases (λ r. r ≡ (if ltb i n then f i else get_or ys (i - n) d)) i n
              (λ h. rw (lt→ltb i n h) (get_or-tabulate n f i d h)) (λ h. rw (le→ltb i n h) refl))

  pub take_of_append : (n : ℕ) (xs ys : List A) → n ≤ length xs → take n (xs ++ ys) ≡ take n xs
  take_of_append zero xs ys h = refl
  take_of_append (suc n) [] ys h = absurd (omega arith)
  take_of_append (suc n) (x ∷ xs) ys h = ap (◌∷◌ x) (take_of_append n xs ys (omega arith))

  pub drop_of_append :
      (n : ℕ) (xs ys : List A) → n ≤ length xs → drop n (xs ++ ys) ≡ drop n xs ++ ys
  drop_of_append zero xs ys h = refl
  drop_of_append (suc n) [] ys h = absurd (omega arith)
  drop_of_append (suc n) (x ∷ xs) ys h = drop_of_append n xs ys (omega arith)

-- A predicate on every element.
abbrev pub All {ℓ κ} : {A : Type ℓ} → (A → Type κ) → List A → Type κ
All P [] = Unit
All P (x ∷ xs) = P x × All P xs

module _ {ℓ} {A : Type ℓ} where
  pub take_past :
      (n : ℕ) (xs ys : List A) → length xs ≤ n → take n (xs ++ ys) ≡ xs ++ take (n - length xs) ys
  take_past n [] ys h = ap (λ k. take k ys) (omega arith)
  take_past zero (x ∷ xs) ys h = absurd (omega arith)
  take_past (suc n) (x ∷ xs) ys h = ap (◌∷◌ x) (
      take_past n xs ys (omega arith)
      ∙ ap (λ k. xs ++ take k ys)
          (let e : n - length xs ≡ suc n - suc (length xs) = omega arith in e))

  pub drop_past :
      (n : ℕ) (xs ys : List A) → length xs ≤ n → drop n (xs ++ ys) ≡ drop (n - length xs) ys
  drop_past n [] ys h = ap (λ k. drop k ys) (omega arith)
  drop_past zero (x ∷ xs) ys h = absurd (omega arith)
  drop_past (suc n) (x ∷ xs) ys h =
      drop_past n xs ys (omega arith)
      ∙ ap (λ k. drop k ys) (let e : n - length xs ≡ suc n - suc (length xs) = omega arith in e)

  -- Two blocks written one behind the other are one block.
  pub blit-blit :
      (m : List A) (i j : ℕ) (xs ys : List A)
      → j ≡ i + length xs
      → blit (blit m i xs) j ys ≡ blit m i (xs ++ ys)
  blit-blit [] i j xs ys e = refl
  blit-blit (a ∷ m) zero j [] ys e = rw (let e' : j ≡ 0 = omega arith in e') refl
  blit-blit (a ∷ m) zero zero (x ∷ xs) ys e = absurd (omega arith)
  blit-blit (a ∷ m) zero (suc j) (x ∷ xs) ys e = ap (◌∷◌ x) (blit-blit m 0 j xs ys (omega arith))
  blit-blit (a ∷ m) (suc i) zero xs ys e = absurd (omega arith)
  blit-blit (a ∷ m) (suc i) (suc j) xs ys e = ap (◌∷◌ a) (blit-blit m i j xs ys (omega arith))

  pub nil_of_length : (xs : List A) → length xs ≡ 0 → xs ≡ []
  nil_of_length [] h = refl
  nil_of_length (x ∷ xs) h = absurd (omega arith)

pub drop-drop {ℓ} : {A : Type ℓ} (m n : ℕ) (xs : List A) → drop m (drop n xs) ≡ drop (n + m) xs
drop-drop m zero xs = ap (λ k. drop k xs) (let e : m ≡ zero + m = omega arith in e)
drop-drop {A} m (suc n) [] =
    drop_all none_left m (omega arith) ∙ sym (drop_all none_left (suc n + m) (omega arith))
  where
    none_left : List A
    none_left = []
drop-drop m (suc n) (x ∷ xs) =
    drop-drop m n xs
    ∙ ap (λ k. drop k (x ∷ xs)) (let e : suc (n + m) ≡ suc n + m = omega arith in e)
