-- ===== src/Server/Cap.antt =====
-- How long a capped log is (server/src/collect/logs.rs, `cap`).
use Prim.Native.String.{len, slice}
use text.Mathlib.Text.{is_char_boundary}
use text.Mathlib.TextPositions.{boundary-zero, len-append}
use vynil.Prelude.{
  ℕ, zero, suc, ◌+◌, ◌≤◌, String, true, ◌≡◌, leb, leb→le, inl, inr, Bool-cases, arith,
}
use vynil.Server.LogText.{floor_boundary, cap, truncation_mark}

-- The cut is at a character's boundary.
floor-boundary : (logs : String) (max : ℕ) → is_char_boundary logs (floor_boundary logs max) ≡ true
unfolding floor_boundary
floor-boundary logs zero = boundary-zero logs
floor-boundary logs (suc max) = elim (Bool-cases (is_char_boundary logs (suc max))) [
  | inl here ↦ rw here here
  | inr inside ↦ rw inside (floor-boundary logs max)
]

floor-le : (logs : String) (max : ℕ) → floor_boundary logs max ≤ max
unfolding floor_boundary
floor-le logs zero = omega arith
floor-le logs (suc max) = ground (arith, floor-le logs max)

-- What is taken up to a boundary has that many bytes.
len-slice :
    (logs : String) (end : ℕ) → is_char_boundary logs end ≡ true → len (slice logs 0 end) ≡ end
len-slice logs end here = ground (arith, here)

-- For any log and any maximum, the cut is at a boundary of a character, so that taking the part before
-- it does not panic, and the capped log has at most the bytes of the maximum and of the mark.
pub len-cap :
    (logs : String) (max : ℕ)
    → (is_char_boundary logs (floor_boundary logs max) ≡ true)
      × (len (cap logs max) ≤ max + len truncation_mark)
unfolding cap
len-cap logs max = (
  floor-boundary logs max,
  elim (Bool-cases (leb (len logs) max)) [
    | inl short ↦ rw short (omega (arith, leb→le (len logs) max short))
    | inr long ↦
        rw (long, len-append)
          (omega (
            arith,
            floor-le logs max,
            len-slice logs (floor_boundary logs max) (floor-boundary logs max),
          ))
  ],
)
