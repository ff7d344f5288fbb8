-- ===== src/Cast/CopyLaws.antt =====
-- cast/copy.rs: `copy_rows` against a description of the picture row by row.
use native.Mathlib.Nat.{mul-le-mul_right}
use xdg_desktop_portal_aegis.Prelude.{
  ℕ, zero, suc, ◌+◌, ◌*◌, ◌-◌, ◌≤◌, ◌<◌, ◌≡◌, refl, sym, ap, ◌∙◌, subst, inl, inr, some, [], ◌∷◌,
  ◌++◌, append_assoc, ◌==◌, ==_iff, length, take, drop, length-append, length-drop, length-take,
  take_append, drop_append, Bool-cases, arith,
}
use xdg_desktop_portal_aegis.Cast.Copy.{Bytes, slice, copy_range, copy_loop, copy_rows}

-- The picture: row after row, each taken from its place in the source.
unfoldable pub rows_of : ℕ → ℕ → Bytes → ℕ → ℕ → Bytes
rows_of stride row_bytes src zero row = []
rows_of stride row_bytes src (suc left) row =
    slice (row * stride) row_bytes src ++ rows_of stride row_bytes src left (suc row)

zero_plus : (b : ℕ) → zero + b ≡ b
zero_plus b = omega arith

zero_times : (n : ℕ) → 0 ≡ 0 * n
zero_times n = omega arith

suc_plus : (a b : ℕ) → suc a + b ≡ suc (a + b)
suc_plus a b = omega arith

drop_nil : (n : ℕ) → drop {A = ℕ} n [] ≡ []
drop_nil zero = refl
drop_nil (suc n) = refl

take_nil : (n : ℕ) → take {A = ℕ} n [] ≡ []
take_nil zero = refl
take_nil (suc n) = refl

drop-drop : (a b : ℕ) (xs : Bytes) → drop b (drop a xs) ≡ drop (a + b) xs
drop-drop zero b xs = ap (λ n. drop n xs) (sym (zero_plus b))
drop-drop (suc a) b [] = drop_nil b ∙ sym (drop_nil (suc a + b))
drop-drop (suc a) b (x ∷ xs) = drop-drop a b xs ∙ ap (λ n. drop n (x ∷ xs)) (sym (suc_plus a b))

take_plus : (a b : ℕ) (xs : Bytes) → take (a + b) xs ≡ take a xs ++ take b (drop a xs)
take_plus zero b xs = ap (λ n. take n xs) (zero_plus b)
take_plus (suc a) b [] = take_nil (suc a + b) ∙ sym (take_nil b)
take_plus (suc a) b (x ∷ xs) =
    ap (λ n. take n (x ∷ xs)) (suc_plus a b) ∙ ap (◌∷◌ x) (take_plus a b xs)

take_done : (done rest : Bytes) (n : ℕ) → length done ≡ n → take n (done ++ rest) ≡ done
take_done done rest n h = subst (λ m. take m (done ++ rest) ≡ done) h (take_append done rest)

drop_done :
    (done rest : Bytes) (n k : ℕ) → length done ≡ n → drop (n + k) (done ++ rest) ≡ drop k rest
drop_done done rest n k h =
    sym (drop-drop n k (done ++ rest))
    ∙ ap (drop k) (subst (λ m. drop m (done ++ rest) ≡ rest) h (drop_append done rest))

length-slice :
    (start count : ℕ) (src : Bytes)
    → start + count ≤ length src
    → length (slice start count src) ≡ count
length-slice start count src h =
    omega (arith, length-take count (drop start src), length-drop start src, h)

-- A copy behind the bytes that are done appends to them.
copy_range_done :
    (done rest src : Bytes) (to from count : ℕ)
    → length done ≡ to
    → count ≤ length rest
    → from + count ≤ length src
    → copy_range to from count src (done ++ rest)
      ≡ some ((done ++ slice from count src) ++ drop count rest)
unfolding copy_range
copy_range_done done rest src to from count e room fits = ground (
  arith,
  e,
  room,
  fits,
  length-append done rest,
  take_done done rest to e,
  drop_done done rest to count e,
  append_assoc done (slice from count src) (drop count rest),
)

-- The loop appends the rows that are left to those that are done.
copy_loop_rows :
    (stride row_bytes : ℕ) (src : Bytes) (left row : ℕ) (done rest : Bytes)
    → length done ≡ row * row_bytes
    → left * row_bytes ≤ length rest
    → ((i : ℕ) → i < left → (row + i) * stride + row_bytes ≤ length src)
    → copy_loop stride row_bytes src left row (done ++ rest)
      ≡ some (done ++ (rows_of stride row_bytes src left row ++ drop (left * row_bytes) rest))
unfolding copy_loop rows_of
copy_loop_rows stride row_bytes src zero row done rest e room fits =
    ap (λ n. some (done ++ drop n rest)) (zero_times row_bytes)
copy_loop_rows stride row_bytes src (suc left) row done rest e room fits =
    let row_fits : row * stride + row_bytes ≤ length src =
      subst (λ n. n * stride + row_bytes ≤ length src) (plus_zero row) (fits 0 (omega arith)) in
    let here =
      copy_range_done done rest src (row * row_bytes) (row * stride) row_bytes e
        (omega (arith, room)) row_fits in
    let next =
      copy_loop_rows stride row_bytes src left (suc row)
        (done ++ slice (row * stride) row_bytes src) (drop row_bytes rest)
        (omega (
          arith,
          e,
          length-append done (slice (row * stride) row_bytes src),
          length-slice (row * stride) row_bytes src row_fits,
        ))
        (omega (arith, room, length-drop row_bytes rest))
        (λ i lt.
          subst (λ n. n * stride + row_bytes ≤ length src) (shift i)
            (fits (suc i) (omega arith))) in
    ground (
      arith,
      here,
      next,
      drop-drop row_bytes (left * row_bytes) rest,
      ap (λ n. drop n rest) (times left),
      append_assoc done (slice (row * stride) row_bytes src) (
          rows_of stride row_bytes src left (suc row)
          ++ drop (left * row_bytes) (drop row_bytes rest)),
      append_assoc (slice (row * stride) row_bytes src)
          (rows_of stride row_bytes src left (suc row))
          (drop (left * row_bytes) (drop row_bytes rest)),
    )
  where
    plus_zero : (n : ℕ) → n + 0 ≡ n
    plus_zero n = omega arith

    shift : (i : ℕ) → row + suc i ≡ suc row + i
    shift i = omega arith

    times : (n : ℕ) → row_bytes + n * row_bytes ≡ suc n * row_bytes
    times n = omega arith

-- Tightly packed rows are one range.
rows_of_packed :
    (row_bytes : ℕ) (src : Bytes) (left row : ℕ)
    → rows_of row_bytes row_bytes src left row ≡ slice (row * row_bytes) (left * row_bytes) src
unfolding rows_of
rows_of_packed row_bytes src zero row =
    ap (λ n. take n (drop (row * row_bytes) src)) (zero_times row_bytes)
rows_of_packed row_bytes src (suc left) row =
    ap (λ t. slice (row * row_bytes) row_bytes src ++ t)
      (rows_of_packed row_bytes src left (suc row)
        ∙ ap (take (left * row_bytes))
            (ap (λ n. drop n src) (times row) ∙ sym (drop-drop (row * row_bytes) row_bytes src)))
    ∙ sym (take_plus row_bytes (left * row_bytes) (drop (row * row_bytes) src))
    ∙ ap (λ n. take n (drop (row * row_bytes) src)) (total left)
  where
    times : (n : ℕ) → suc n * row_bytes ≡ n * row_bytes + row_bytes
    times n = omega arith

    total : (n : ℕ) → row_bytes + n * row_bytes ≡ suc n * row_bytes
    total n = omega arith

packed_total : (h n : ℕ) → 1 ≤ h → h * n ≡ n * (h - 1) + n
packed_total zero n some_row = absurd (omega (arith, some_row))
packed_total (suc h) n some_row =
    let less : h ≡ suc h - 1 = omega arith in subst (λ m. suc h * n ≡ n * m + n) less (omega arith)

-- `copy_rows` stays inside both buffers and writes the picture: if the destination has room for the
-- rows and the source reaches the end of its last row, the call does not panic, the destination
-- then begins with the rows of the source in their order, each taken from its own stride, and what
-- stands behind them is unchanged.
pub copy_rows-rows_of :
    (src dest : Bytes) (stride row_bytes height : ℕ)
    → 1 ≤ height
    → height * row_bytes ≤ length dest
    → stride * (height - 1) + row_bytes ≤ length src
    → copy_rows src stride dest row_bytes height
      ≡ some (rows_of stride row_bytes src height 0 ++ drop (height * row_bytes) dest)
unfolding copy_rows
copy_rows-rows_of src dest stride row_bytes height some_row room fits =
    elim (Bool-cases (stride == row_bytes)) [
      | inl e ↦
          let same : stride ≡ row_bytes = (==_iff stride row_bytes).0 e in
          ground (
            arith,
            e,
            packed stride same (subst (λ s. s * (height - 1) + row_bytes ≤ length src) same fits),
          )
      | inr e ↦ ground (
        arith,
        e,
        copy_loop_rows stride row_bytes src height 0 [] dest (omega arith) room (λ i lt.
            let below = mul-le-mul_right {m = 0 + i} {n = height - 1} stride (omega arith) in
            omega (arith, fits, below)),
      )
    ]
  where
    packed :
        (stride : ℕ)
        → stride ≡ row_bytes
        → row_bytes * (height - 1) + row_bytes ≤ length src
        → copy_range 0 0 (height * row_bytes) src dest
          ≡ some (rows_of stride row_bytes src height 0 ++ drop (height * row_bytes) dest)
    packed stride same fits =
        copy_range_done [] dest src 0 0 (height * row_bytes) refl room
          (omega (arith, fits, packed_total height row_bytes some_row))
        ∙ ap (λ t. some (t ++ drop (height * row_bytes) dest))
            (ap (λ n. slice n (height * row_bytes) src) (zero_times row_bytes)
              ∙ sym (rows_of_packed row_bytes src height 0)
              ∙ ap (λ s. rows_of s row_bytes src height 0) (sym same))
