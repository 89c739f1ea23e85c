-- ===== src/Features/Sketch/Cells.antt =====
-- A row of the sketch as the values of a function at 0, 1, 2 and so on.
use sih.Prelude.{
  subst, arith, ◌∷◌, [], List, some, false, true, ap, sym, refl, ◌≡◌, ◌<◌, ◌+◌, suc, zero, ℕ,
  replicate, set, get_elem?, if◌then◌else◌, nat_beq,
}

unfoldable pub cells : ℕ → ℕ → (ℕ → ℕ) → List ℕ
cells k zero f = []
cells k (suc n) f = f k ∷ cells (k + 1) n f

pub cells_zero : (k n : ℕ) → replicate n 0 ≡ cells k n (λ _. 0)
unfolding cells
cells_zero k zero = refl
cells_zero k (suc n) = ap (◌∷◌ 0) (cells_zero (k + 1) n)

get_elem?-cells : (k n i : ℕ) (f : ℕ → ℕ) → i < n → get_elem? (cells k n f) i ≡ some (f (k + i))
unfolding cells
get_elem?-cells k zero i f h = absurd (omega (arith, h))
get_elem?-cells k (suc n) zero f h = let e : k + 0 ≡ k = omega arith in rw e
get_elem?-cells k (suc n) (suc i) f h =
    let e : k + 1 + i ≡ k + suc i = omega arith in
    rw (← e) (get_elem?-cells (k + 1) n i f (omega arith))

-- `f` with `c` added at one place.
abbrev pub bump : ℕ → ℕ → (ℕ → ℕ) → ℕ → ℕ
bump at c f j = if nat_beq at j then f j + c else f j

cells_below : (at c k n : ℕ) (f : ℕ → ℕ) → at < k → cells k n (bump at c f) ≡ cells k n f
unfolding cells
cells_below at c k zero f h = refl
cells_below at c k (suc n) f h =
    let e : nat_beq at k ≡ false = ground arith in
    rw e (ap (◌∷◌ (f k)) (cells_below at c (k + 1) n f (omega arith)))

set-cells :
    (k n i c : ℕ) (f : ℕ → ℕ)
    → i < n
    → set (cells k n f) i (f (k + i) + c) ≡ cells k n (bump (k + i) c f)
unfolding cells
set-cells k zero i c f h = absurd (omega (arith, h))
set-cells k (suc n) zero c f h =
    let e : k + 0 ≡ k = omega arith in
    let b : nat_beq k k ≡ true = ground arith in
    rw (e, b) (ap (◌∷◌ (f k + c)) (sym (cells_below k c (k + 1) n f (omega arith))))
set-cells k (suc n) (suc i) c f h =
    let e : k + 1 + i ≡ k + suc i = omega arith in
    let b : nat_beq (k + suc i) k ≡ false = ground arith in
    let later : set (cells (k + 1) n f) i (f (k + 1 + i) + c)
        ≡ cells (k + 1) n (bump (k + 1 + i) c f) =
      set-cells (k + 1) n i c f (omega arith) in
    rw b (ap (◌∷◌ (f k)) (rw e at later))

-- The two at a row that starts at 0.
pub get_elem?-row : (n i : ℕ) (f : ℕ → ℕ) → i < n → get_elem? (cells 0 n f) i ≡ some (f i)
get_elem?-row n i f h =
    let e : 0 + i ≡ i = omega arith in
    subst (λ (j : ℕ). get_elem? (cells 0 n f) i ≡ some (f j)) e (get_elem?-cells 0 n i f h)

pub set-row :
    (n i c : ℕ) (f : ℕ → ℕ) → i < n → set (cells 0 n f) i (f i + c) ≡ cells 0 n (bump i c f)
set-row n i c f h =
    let e : 0 + i ≡ i = omega arith in
    subst (λ (j : ℕ). set (cells 0 n f) i (f j + c) ≡ cells 0 n (bump j c f)) e
      (set-cells 0 n i c f h)
