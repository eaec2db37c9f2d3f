-- ===== src/Schema/Dedupe.antt =====
-- A deduplicated name is always found, and it is free.
use mathlib.Core.Path.{ap₂}
use mathlib.Core.Option.{some-injective}
use hacs_xbloom.Prelude.{
  some, none, true, false, ◌∷◌, [], refl, ℕ, ◌++◌, ◌≡◌, List, ap, suc, ◌≤◌, arith, length, ◌+◌,
  Bool-cases, if◌then◌else◌, zero, inl, ◌∙◌, sym, inr, Option-cases, length-append, get_or, drop,
}
use hacs_xbloom.Schema.{Name, same_name, is_taken, numbered, dedupe_from, dedupe_name}

same_name-eq : (a b : Name) → same_name a b ≡ true → a ≡ b
same_name-eq [] [] h = refl
same_name-eq [] (y ∷ ys) h = absurd (ground arith)
same_name-eq (x ∷ xs) [] h = absurd (ground arith)
same_name-eq (x ∷ xs) (y ∷ ys) h = grind (arith, same_name-eq xs ys)

cancel_left : (a b c : Name) → a ++ b ≡ a ++ c → b ≡ c
cancel_left [] b c e = e
cancel_left (x ∷ xs) b c e = cancel_left xs b c (ap tail e)
  where
    tail : Name → Name
    tail [] = []
    tail (y ∷ ys) = ys

cancel_last : (a b : Name) (z : ℕ) → a ++ z ∷ [] ≡ b ++ z ∷ [] → a ≡ b
cancel_last [] [] z e = refl
cancel_last [] (y ∷ ys) z e = absurd (omega (arith, ap length e, length-append ys (z ∷ [])))
cancel_last (x ∷ xs) [] z e = absurd (omega (arith, ap length e, length-append xs (z ∷ [])))
cancel_last (x ∷ xs) (y ∷ ys) z e =
    ap₂ (λ h t. h ∷ t) (ap (λ l. get_or l 0 0) e) (cancel_last xs ys z (ap (drop 1) e))

some-none : (n : ℕ) → some n ≡ none → ⊥
some-none n e = ground arith

true-false : true ≡ false → ⊥
true-false e = ground arith

-- `str` gives different strings for different numbers.
module _ (str : ℕ → Name) (injective : (m n : ℕ) → str m ≡ str n → m ≡ n) (name : Name) where
  numbered-injective : (m n : ℕ) → numbered str name m ≡ numbered str name n → m ≡ n
  unfolding numbered
  numbered-injective m n e = injective m n (
      cancel_left (0x20 ∷ 0x28 ∷ []) (str m) (str n)
        (cancel_last (0x20 ∷ 0x28 ∷ str m) (0x20 ∷ 0x28 ∷ str n) 0x29 (cancel_left name _ _ e)))

  -- How many of the next numbers give this name; how many give one of the names.
  hits : Name → ℕ → ℕ → ℕ
  hits x n zero = 0
  hits x n (suc k) =
      let later = hits x (n + 1) k in if same_name (numbered str name n) x then suc later else later

  found : List Name → ℕ → ℕ → ℕ
  found existing n zero = 0
  found existing n (suc k) =
      let later = found existing (n + 1) k in
      if is_taken (numbered str name n) existing then suc later else later

  hits-none :
      (x : Name) (n k : ℕ)
      → ((j : ℕ) → n ≤ j → same_name (numbered str name j) x ≡ false)
      → hits x n k ≡ 0
  unfolding hits
  hits-none x n zero h = refl
  hits-none x n (suc k) h =
      rw (h n (omega arith)) (hits-none x (n + 1) k (λ j le. h j (omega (arith, le))))

  hits_once : (x : Name) (n k : ℕ) → hits x n k ≤ 1
  unfolding hits
  hits_once x n zero = omega arith
  hits_once x n (suc k) = elim (Bool-cases (same_name (numbered str name n) x)) [
    | inl here ↦ rw here (omega (arith, hits-none x (n + 1) k (λ j le. later here j le)))
    | inr other ↦ rw other (hits_once x (n + 1) k)
  ]
    where
      later :
          same_name (numbered str name n) x ≡ true
          → (j : ℕ) → n + 1 ≤ j
          → same_name (numbered str name j) x ≡ false
      later here j le = elim (Bool-cases (same_name (numbered str name j) x)) [
        | inl again ↦
            let same =
              numbered-injective n j (same_name-eq _ x here ∙ sym (same_name-eq _ x again)) in
            absurd (omega (arith, same, le))
        | inr different ↦ different
      ]

  found-cons :
      (x : Name) (xs : List Name) (n k : ℕ) → found (x ∷ xs) n k ≤ hits x n k + found xs n k
  unfolding hits found
  found-cons x xs n zero = omega arith
  found-cons x xs n (suc k) = grind (arith, found-cons x xs (n + 1) k)

  found-nil : (n k : ℕ) → found [] n k ≡ 0
  unfolding found
  found-nil n zero = refl
  found-nil n (suc k) = found-nil (n + 1) k

  -- A name is given by one number at most.
  found-length : (xs : List Name) (n k : ℕ) → found xs n k ≤ length xs
  found-length [] n k = omega (arith, found-nil n k)
  found-length (x ∷ xs) n k =
      omega (arith, found-cons x xs n k, hits_once x n k, found-length xs n k)

  dedupe_from-found :
      (fuel n : ℕ) (existing : List Name)
      → dedupe_from str fuel n name existing ≡ none
      → found existing n fuel ≡ fuel
  unfolding dedupe_from found
  dedupe_from-found zero n existing e = refl
  dedupe_from-found (suc fuel) n existing e =
      elim (Bool-cases (is_taken (numbered str name n) existing)) [
        | inl taken ↦ rw taken (ap suc (dedupe_from-found fuel (n + 1) existing (rw taken at e)))
        | inr open_name ↦ absurd (some-none n (rw open_name at e))
      ]

  dedupe_from-free :
      (fuel n : ℕ) (existing : List Name) (m : ℕ)
      → dedupe_from str fuel n name existing ≡ some m
      → is_taken (numbered str name m) existing ≡ false
  unfolding dedupe_from
  dedupe_from-free zero n existing m e = absurd (ground arith)
  dedupe_from-free (suc fuel) n existing m e =
      elim (Bool-cases (is_taken (numbered str name n) existing)) [
        | inl taken ↦ dedupe_from-free fuel (n + 1) existing m (rw taken at e)
        | inr open_name ↦ rw (← some-injective n m (rw open_name at e)) open_name
      ]

  -- Provided that different numbers are written differently, the search for a name ends, within one
  -- round more than there are names to avoid; the name that it gives is not one of them, and a name
  -- that is free is kept.
  pub dedupe_name-free :
      (existing : List Name)
      → (free : Name) × (dedupe_name str name existing ≡ some free)
        × (is_taken free existing ≡ false)
        × (is_taken name existing ≡ false → free ≡ name)
  unfolding dedupe_name
  dedupe_name-free existing = elim (Bool-cases (is_taken name existing)) [
    | inr open_name ↦ (name, rw open_name refl, open_name, λ h. refl)
    | inl taken ↦ elim (Option-cases (dedupe_from str (suc (length existing)) 2 name existing)) [
      | inl stuck ↦ absurd (
          omega (
            arith,
            dedupe_from-found (suc (length existing)) 2 existing stuck,
            found-length existing 2 (suc (length existing)),
          ))
      | inr (m, e) ↦ (
        numbered str name m,
        rw (taken, e) refl,
        dedupe_from-free (suc (length existing)) 2 existing m e,
        λ h. absurd (true-false (sym taken ∙ h)),
      )
    ]
  ]
