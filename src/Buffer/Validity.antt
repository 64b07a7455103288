-- ===== src/Buffer/Validity.antt =====
-- The shape of a buffer, which every operation keeps.
use handy.Base.{
  ℕ, ◌+◌, ◌-◌, ◌^◌, ◌≤◌, ◌<◌, ◌≡◌, refl, ◌++◌, Bytes, length, take, drop, arith, length-append,
  length-take, length-drop, take-append, drop-append_le, take-append_ge, take-drop, ◌∙◌, ap,
  drop-drop,
}
use handy.Base.Sizes.{size_mod}
use handy.Buffer.{Buffer, overwrite, size, space, contents}

-- What a caller may ask for, so that no sum of sizes wraps.
abbrev pub limit : ℕ
limit = 2 ^ 62

pub record IsValid (r : Buffer) : Type 0 where
  pub owned : length r.cells ≡ r.cap
  pub ordered : r.b ≤ r.e
  pub within : r.e ≤ r.cap
  pub bounded : r.cap < size_mod

pub size-eq : (r : Buffer) → IsValid r → size r ≡ r.e - r.b
unfolding size
size-eq r v = omega arith

pub space-eq : (r : Buffer) → IsValid r → space r ≡ r.cap - r.e
unfolding space
space-eq r v = omega arith

pub length-contents : (r : Buffer) → IsValid r → length (contents r) ≡ size r
unfolding contents size
length-contents r v =
    omega (arith, length-take (size r) (drop r.b r.cells), length-drop r.b r.cells)

-- A copy that lies within the array leaves its length as it was.
pub length-overwrite :
    (cells xs : Bytes) (i : ℕ)
    → i + length xs ≤ length cells
    → length (overwrite cells i xs) ≡ length cells
length-overwrite cells xs i h = omega (
  arith,
  length-append (take i cells) (xs ++ drop (i + length xs) cells),
  length-append xs (drop (i + length xs) cells),
  length-take i cells,
  length-drop (i + length xs) cells,
)

-- The bytes of an array from `b` up to `e`.
abbrev pub window : Bytes → ℕ → ℕ → Bytes
window cells b e = take (e - b) (drop b cells)

pub contents-window : (r : Buffer) → IsValid r → contents r ≡ window r.cells r.b r.e
unfolding contents
contents-window r v = rw (size-eq r v)

drop-take : (cells : Bytes) (b e : ℕ) → b ≤ e → drop b (take e cells) ≡ window cells b e
drop-take cells b e h =
    let s : e ≡ b + (e - b) = omega arith in
    ap (λ k. drop b (take k cells)) s ∙ take-drop (e - b) b cells

-- Bytes copied to the end of the window extend it.
pub window_extend :
    (cells xs : Bytes) (b e : ℕ)
    → b ≤ e
    → e + length xs ≤ length cells
    → window (overwrite cells e xs) b (e + length xs) ≡ window cells b e ++ xs
window_extend cells xs b e h k =
    let rest = drop (e + length xs) cells in
    let front : b ≤ length (take e cells) = omega (arith, length-take e cells) in
    let kept = drop b (take e cells) in
    let short : length kept ≡ e - b =
      omega (arith, length-drop b (take e cells), length-take e cells) in
    let room : length kept ≤ e + length xs - b = omega arith in
    let left : e + length xs - b - length kept ≡ length xs = omega arith in
    ap (take (e + length xs - b)) (drop-append_le b (take e cells) (xs ++ rest) front)
    ∙ take-append_ge (e + length xs - b) kept (xs ++ rest) room
    ∙ ap (λ k. kept ++ take k (xs ++ rest)) left
    ∙ ap (λ t. kept ++ t) (take-append (length xs) xs rest refl)
    ∙ ap (λ t. t ++ xs) (drop-take cells b e h)

-- Bytes copied to the front of an array are its first bytes.
pub window_front :
    (cells xs : Bytes) (n : ℕ) → n ≡ length xs → window (overwrite cells 0 xs) 0 n ≡ xs
window_front cells xs n h =
    let e : n - 0 ≡ length xs = omega arith in rw e (take-append (length xs) xs _ refl)

-- Bytes taken off the front move the window's start.
pub drop-window :
    (cells : Bytes) (n b e : ℕ) → b + n ≤ e → drop n (window cells b e) ≡ window cells (b + n) e
drop-window cells n b e h =
    let s : e - b ≡ n + (e - (b + n)) = omega arith in
    ap (λ k. drop n (take k (drop b cells))) s
    ∙ take-drop (e - (b + n)) n (drop b cells)
    ∙ ap (take (e - (b + n))) (drop-drop n b cells)
