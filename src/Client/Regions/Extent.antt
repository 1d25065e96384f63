-- ===== src/Client/Regions/Extent.antt =====
-- The test of a rectangle in src/corex_remote_cuda.c says exactly whether the rectangle fits.
use x_remote_runtime.Prelude.{ℕ, ◌+◌, ◌-◌, ◌*◌, ◌≤◌, ◌<◌, ◌≡◌, ◌↔◌, arith, true}
use native.Mathlib.Nat.{le-div_iff_mul-le}
use x_remote_runtime.Client.Regions.{checked_2d_extent}

-- A rectangle of rows, none of them empty and none longer than the pitch, that ends inside.
pub record Fits (offset pitch width height size : ℕ) : Type 0 where
  pub has_rows : 0 < height
  pub has_bytes : 0 < width
  pub in_pitch : width ≤ pitch
  pub ends : offset + (height - 1) * pitch + width ≤ size

-- `checked_2d_extent` accepts a rectangle exactly if it has bytes, its rows are no longer than the pitch,
-- and the last byte of its last row is inside the allocation.
pub checked_2d_extent_iff :
    (offset pitch width height size : ℕ)
    → (checked_2d_extent offset pitch width height size ≡ true)
      ↔ Fits offset pitch width height size
unfolding checked_2d_extent
checked_2d_extent_iff offset pitch width height size = (
  λ e.
      let at_most =
        (le-div_iff_mul-le {k = pitch} {x = height - 1} {y = size - offset}
          (ground (arith, e))).0 in
      record {
        has_rows = ground (arith, e);
        has_bytes = ground (arith, e);
        in_pitch = ground (arith, e);
        ends = ground (arith, e, at_most);
      },
  λ h.
      let at_least =
        (le-div_iff_mul-le {k = pitch} {x = height - 1} {y = size - offset}
          (omega (arith, h.has_bytes, h.in_pitch))).1 in
      ground (arith, at_least, h.has_rows, h.has_bytes, h.in_pitch, h.ends),
)
