-- ===== src/Prelude/Layout.antt =====
-- A buffer laid out in parts, one behind the other: slices that are parts, and copies that replace a part.
use Prim.Native.Nat.{ℕ, zero, suc, ◌+◌, ◌-◌, ◌≤◌, ◌<◌}
use mathlib.Core.Path.{◌≡◌, refl, sym, ap, ◌∙◌}
use mathlib.Core.List.{List, [], ◌∷◌, ◌++◌, append_assoc, append-nil}
use native.Mathlib.Omega.{arith}
use mathlib.Core.Bool.{true}
use harmony_os_reverse_tethe.Prelude.Tests.{leb}
use harmony_os_reverse_tethe.Prelude.Lists.{
  length, take, drop, slice, copy_at, All, length-append, get_or, take-append-drop, length-take,
  length-drop,
}
use harmony_os_reverse_tethe.Prelude.Rust.{ok, subslice, subslice-eq-ok, write_at}

module _ {A : Type 0} where
  pub take-append : (n : ℕ) (a b : List A) → length a ≡ n → take n (a ++ b) ≡ a
  take-append zero [] b h = refl
  take-append zero (x ∷ a) b h = absurd (omega arith)
  take-append (suc n) [] b h = absurd (omega arith)
  take-append (suc n) (x ∷ a) b h = ap (◌∷◌ x) (take-append n a b (omega arith))

  pub drop-append : (n : ℕ) (a b : List A) → length a ≡ n → drop n (a ++ b) ≡ b
  drop-append zero [] b h = refl
  drop-append zero (x ∷ a) b h = absurd (omega arith)
  drop-append (suc n) [] b h = absurd (omega arith)
  drop-append (suc n) (x ∷ a) b h = drop-append n a b (omega arith)

  pub get_or-append_behind :
      (n k : ℕ) (a b : List A) (d : A) → length a ≡ n → get_or (a ++ b) (n + k) d ≡ get_or b k d
  get_or-append_behind zero k [] b d h = ap (λ j. get_or b j d) (omega arith)
  get_or-append_behind zero k (x ∷ a) b d h = absurd (omega arith)
  get_or-append_behind (suc n) k [] b d h = absurd (omega arith)
  get_or-append_behind (suc n) k (x ∷ a) b d h =
      ap (λ j. get_or (x ∷ (a ++ b)) j d) {x = suc n + k} {y = suc (n + k)} (omega arith)
      ∙ get_or-append_behind n k a b d (omega arith)

  pub slice-middle :
      (i j : ℕ) (a b c : List A) → length a ≡ i → i + length b ≡ j → slice i j (a ++ (b ++ c)) ≡ b
  slice-middle i j a b c h k =
      ap (take (j - i)) (drop-append i a (b ++ c) h) ∙ take-append (j - i) b c (omega arith)

  pub copy_at-middle :
      (i : ℕ) (a b b' c : List A)
      → length a ≡ i
      → length b' ≡ length b
      → copy_at i b' (a ++ (b ++ c)) ≡ a ++ (b' ++ c)
  copy_at-middle i a b b' c h k =
      ap (λ l. l ++ (b' ++ drop (i + length b') (a ++ (b ++ c)))) (take-append i a (b ++ c) h)
      ∙ ap (λ l. a ++ (b' ++ l))
          (ap (drop (i + length b')) (sym (append_assoc a b c))
            ∙ drop-append (i + length b') (a ++ b) c (omega (arith, length-append a b)))

  pub copy_at-front : (b b' c : List A) → length b' ≡ length b → copy_at 0 b' (b ++ c) ≡ b' ++ c
  copy_at-front b b' c h = copy_at-middle 0 [] b b' c refl h

module _ {A : Type 0} where
  take-append_behind :
      (n i : ℕ) (a b : List A) → length a ≡ n → take (n + i) (a ++ b) ≡ a ++ take i b
  take-append_behind zero i [] b h = ap (λ j. take j b) (omega arith)
  take-append_behind zero i (x ∷ a) b h = absurd (omega arith)
  take-append_behind (suc n) i [] b h = absurd (omega arith)
  take-append_behind (suc n) i (x ∷ a) b h =
      ap (λ j. take j (x ∷ (a ++ b))) {x = suc n + i} {y = suc (n + i)} (omega arith)
      ∙ ap (◌∷◌ x) (take-append_behind n i a b (omega arith))

  drop-append_behind : (n i : ℕ) (a b : List A) → length a ≡ n → drop (n + i) (a ++ b) ≡ drop i b
  drop-append_behind zero i [] b h = ap (λ j. drop j b) (omega arith)
  drop-append_behind zero i (x ∷ a) b h = absurd (omega arith)
  drop-append_behind (suc n) i [] b h = absurd (omega arith)
  drop-append_behind (suc n) i (x ∷ a) b h =
      ap (λ j. drop j (x ∷ (a ++ b))) {x = suc n + i} {y = suc (n + i)} (omega arith)
      ∙ drop-append_behind n i a b (omega arith)

  take-append_front : (i : ℕ) (b c : List A) → i ≤ length b → take i (b ++ c) ≡ take i b
  take-append_front zero b c h = refl
  take-append_front (suc i) [] c h = absurd (omega arith)
  take-append_front (suc i) (x ∷ b) c h = ap (◌∷◌ x) (take-append_front i b c (omega arith))

  drop-append_front : (i : ℕ) (b c : List A) → i ≤ length b → drop i (b ++ c) ≡ drop i b ++ c
  drop-append_front zero b c h = refl
  drop-append_front (suc i) [] c h = absurd (omega arith)
  drop-append_front (suc i) (x ∷ b) c h = drop-append_front i b c (omega arith)

  get_or-append_front :
      (k : ℕ) (b c : List A) (x : A) → k < length b → get_or (b ++ c) k x ≡ get_or b k x
  get_or-append_front k [] c x h = absurd (omega arith)
  get_or-append_front zero (y ∷ b) c x h = refl
  get_or-append_front (suc k) (y ∷ b) c x h = get_or-append_front k b c x (omega arith)

  get_or-take : (i k : ℕ) (b : List A) (x : A) → k < i → get_or (take i b) k x ≡ get_or b k x
  get_or-take zero k b x h = absurd (omega arith)
  get_or-take (suc i) k [] x h = refl
  get_or-take (suc i) zero (y ∷ b) x h = refl
  get_or-take (suc i) (suc k) (y ∷ b) x h = get_or-take i k b x (omega arith)

  -- In front of a copy nothing changes.
  pub get_or-copy_at_front :
      (i k : ℕ) (src buf : List A) (x : A)
      → k < i
      → i ≤ length buf
      → get_or (copy_at i src buf) k x ≡ get_or buf k x
  get_or-copy_at_front i k src buf x h fits =
      get_or-append_front k (take i buf) (src ++ drop (i + length src) buf) x
        (omega (arith, length-take i buf))
      ∙ get_or-take i k buf x h

  pub slice-append_front :
      (i j : ℕ) (b c : List A) → i ≤ j → j ≤ length b → slice i j (b ++ c) ≡ slice i j b
  slice-append_front i j b c h k =
      ap (take (j - i)) (drop-append_front i b c (omega arith))
      ∙ take-append_front (j - i) (drop i b) c (omega (arith, length-drop i b))

  -- A copy into the part in the middle.
  pub copy_at-inside :
      (n i j : ℕ) (src a b c : List A)
      → length a ≡ n
      → j ≡ n + i
      → i + length src ≤ length b
      → copy_at j src (a ++ (b ++ c)) ≡ a ++ (copy_at i src b ++ c)
  copy_at-inside n i j src a b c h is_j fits =
      let front : take j (a ++ (b ++ c)) ≡ a ++ take i b =
        ap (λ m. take m (a ++ (b ++ c))) is_j
        ∙ take-append_behind n i a (b ++ c) h
        ∙ ap (λ l. a ++ l) (take-append_front i b c (omega arith)) in
      let back : drop (j + length src) (a ++ (b ++ c)) ≡ drop (i + length src) b ++ c =
        ap (λ m. drop m (a ++ (b ++ c))) {y = n + (i + length src)} (omega arith)
        ∙ drop-append_behind n (i + length src) a (b ++ c) h
        ∙ drop-append_front (i + length src) b c fits in
      rw (front, back) (simp append_assoc)

-- A list that is long enough, cut at two places.
pub in_three :
    (n m : ℕ) (xs : List ℕ)
    → n + m ≤ length xs
    → (a b c : List ℕ) × (xs ≡ a ++ (b ++ c))
      × (length a ≡ n)
      × (length b ≡ m)
      × (length a + length b + length c ≡ length xs)
in_three n m xs h =
    let rest = drop n xs in
    (
      take n xs,
      take m rest,
      drop m rest,
      sym (ap (λ l. take n xs ++ l) (take-append-drop m rest) ∙ take-append-drop n xs),
      omega (arith, length-take n xs),
      omega (arith, length-take m rest, length-drop n xs),
      omega (arith, length-take n xs, length-take m rest, length-drop n xs, length-drop m rest),
    )

module _ {A : Type 0} (P : A → Type 0) where
  pub All-append : (xs ys : List A) → All P xs → All P ys → All P (xs ++ ys)
  All-append [] ys h k = k
  All-append (x ∷ xs) ys (p, h) k = (p, All-append xs ys h k)

  pub All-append_left : (xs ys : List A) → All P (xs ++ ys) → All P xs
  All-append_left [] ys h = tt
  All-append_left (x ∷ xs) ys (p, h) = (p, All-append_left xs ys h)

  pub All-append_right : (xs ys : List A) → All P (xs ++ ys) → All P ys
  All-append_right [] ys h = h
  All-append_right (x ∷ xs) ys (p, h) = All-append_right xs ys h

  pub All-take : (n : ℕ) (xs : List A) → All P xs → All P (take n xs)
  All-take zero xs h = tt
  All-take (suc n) [] h = tt
  All-take (suc n) (x ∷ xs) (p, h) = (p, All-take n xs h)

  pub All-drop : (n : ℕ) (xs : List A) → All P xs → All P (drop n xs)
  All-drop zero xs h = h
  All-drop (suc n) [] h = tt
  All-drop (suc n) (x ∷ xs) (p, h) = All-drop n xs h

  pub All-copy_at : (i : ℕ) (src buf : List A) → All P src → All P buf → All P (copy_at i src buf)
  All-copy_at i src buf h k =
      All-append (take i buf) _ (All-take i buf k)
        (All-append src _ h (All-drop (i + length src) buf k))

module _ {E : Type 0} where
  -- `subslice` on the parts.
  pub subslice-middle :
      (i j : ℕ) (a b c : List ℕ)
      → length a ≡ i
      → i + length b ≡ j
      → subslice {E = E} (a ++ (b ++ c)) i j ≡ ok b
  subslice-middle i j a b c h k =
      subslice-eq-ok (a ++ (b ++ c)) i j (omega arith)
        (omega (arith, length-append a (b ++ c), length-append b c))
      ∙ ap ok (slice-middle i j a b c h k)

  pub subslice-start : (j : ℕ) (b c : List ℕ) → length b ≡ j → subslice {E = E} (b ++ c) 0 j ≡ ok b
  subslice-start j b c h = subslice-middle 0 j [] b c refl (omega arith)

  pub subslice-end :
      (i : ℕ) (b c : List ℕ) → length b ≡ i → subslice {E = E} (b ++ c) i (length (b ++ c)) ≡ ok c
  subslice-end i b c h =
      ap (λ l. subslice {E = E} (b ++ l) i (length (b ++ c))) (sym (append-nil c))
      ∙ subslice-middle i (length (b ++ c)) b c [] h (omega (arith, length-append b c))

  -- `write_at` on the parts.
  pub write_at-middle :
      (i : ℕ) (a b b' c : List ℕ)
      → length a ≡ i
      → length b' ≡ length b
      → write_at {E = E} (a ++ (b ++ c)) i b' ≡ ok (a ++ (b' ++ c))
  unfolding write_at
  write_at-middle i a b b' c h k =
      let fits : leb (i + length b') (length (a ++ (b ++ c))) ≡ true =
        ground (arith, length-append a (b ++ c), length-append b c) in
      rw (write_at, fits) (ap ok (copy_at-middle i a b b' c h k))

  pub write_at-start :
      (b b' c : List ℕ) → length b' ≡ length b → write_at {E = E} (b ++ c) 0 b' ≡ ok (b' ++ c)
  write_at-start b b' c h = write_at-middle 0 [] b b' c refl h

  pub write_at-inside :
      (n i j : ℕ) (src a b c : List ℕ)
      → length a ≡ n
      → j ≡ n + i
      → i + length src ≤ length b
      → write_at {E = E} (a ++ (b ++ c)) j src ≡ ok (a ++ (copy_at i src b ++ c))
  unfolding write_at
  write_at-inside n i j src a b c h is_j fits =
      let in_all : leb (j + length src) (length (a ++ (b ++ c))) ≡ true =
        ground (arith, length-append a (b ++ c), length-append b c) in
      rw (write_at, in_all) (ap ok (copy_at-inside n i j src a b c h is_j fits))
