-- ===== src/Buffer/Copying.antt =====
-- handy/net.cc: what a copied buffer holds.
use handy.Base.{ℕ, ◌+◌, ◌-◌, ◌≤◌, ◌≡◌, refl, ap, ◌∙◌, [], ◌∷◌, arith, Bytes, length}
use handy.Buffer.{Buffer, contents, overwrite, copy_from, copy_cells}
use handy.Buffer.Validity.{
  IsValid, size-eq, length-contents, length-overwrite, contents-window, window, window_extend,
}

module _ (fresh : ℕ → Bytes) (fresh_length : (n : ℕ) → length (fresh n) ≡ n) where
  copy_cells_lem :
      (c : Bytes) (r : Buffer)
      → IsValid r
      → IsValid (copy_cells fresh c r) × (contents (copy_cells fresh c r) ≡ contents r)
  unfolding copy_cells
  copy_cells_lem [] r v = (v, refl)
  copy_cells_lem (_ ∷ _) r v = (
    valid,
    contents-window _ valid
        ∙ ap (window (overwrite (fresh r.cap) r.b (contents r)) r.b) held
        ∙ window_extend (fresh r.cap) (contents r) r.b r.b (omega arith) fits
        ∙ (let none_before : r.b - r.b ≡ 0 = omega arith in rw none_before),
  )
    where
      held : r.e ≡ r.b + length (contents r)
      held = omega (arith, length-contents r v, size-eq r v)

      fits : r.b + length (contents r) ≤ length (fresh r.cap)
      fits = omega (arith, held, fresh_length r.cap, v.within)

      valid : IsValid (record r { cells = overwrite (fresh r.cap) r.b (contents r) })
      valid = record {
        owned = length-overwrite (fresh r.cap) (contents r) r.b fits ∙ fresh_length r.cap;
        ordered = v.ordered;
        within = v.within;
        bounded = v.bounded;
      }

  -- A copy is valid and holds the same bytes.
  pub copy_from_lem :
      (r : Buffer)
      → IsValid r
      → IsValid (copy_from fresh r) × (contents (copy_from fresh r) ≡ contents r)
  copy_from_lem r v = unfold copy_from in copy_cells_lem r.cells r v
