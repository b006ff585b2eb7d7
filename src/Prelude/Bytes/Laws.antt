-- ===== src/Prelude/Bytes/Laws.antt =====
-- Big-endian numbers: reading back what was written.
use Prim.Native.Nat.{ℕ, zero, suc, ◌+◌, ◌-◌, ◌*◌, ◌/◌, ◌%◌, ◌^◌, ◌≤◌, ◌<◌}
use mathlib.Core.List.{List, [], ◌∷◌}
use mathlib.Core.Path.{◌≡◌, refl, ap}
use native.Mathlib.Nat.{pow-suc, one-le-pow, div-add-mod, div-div-eq-div-mul, mod-eq_of_lt}
use native.Mathlib.Omega.{arith}
use fpga_pi_parallel_nids.Prelude.Lists.{length, All, take, drop, length-take}
use fpga_pi_parallel_nids.Prelude.Bytes.Defs.{
  IsByte, be_digits, from_bytes_acc, from_bytes, slice, zeros,
}

pub length-be_digits : (n x : ℕ) → length (be_digits n x) ≡ n
length-be_digits zero x = refl
length-be_digits (suc n) x = ap suc (length-be_digits n x)

pub be_digits-IsByte : (n x : ℕ) → All IsByte (be_digits n x)
be_digits-IsByte zero x = tt
be_digits-IsByte (suc n) x = (omega arith, be_digits-IsByte n x)

pub zeros-IsByte : (n : ℕ) → All IsByte (zeros n)
zeros-IsByte zero = tt
zeros-IsByte (suc n) = (omega arith, zeros-IsByte n)

-- `x % 256 ^ (n + 1)` from its highest byte and the rest.
mod-pow-suc : (n x : ℕ) → x % 256 ^ suc n ≡ x / 256 ^ n % 256 * 256 ^ n + x % 256 ^ n
mod-pow-suc n x = omega (
  arith,
  div-add-mod x (256 ^ n),
  div-add-mod x (256 ^ suc n),
  ap (λ (t : ℕ). 256 ^ n * t) (div-add-mod (x / 256 ^ n) 256),
  ap (λ (t : ℕ). 256 ^ n * 256 * t) same,
  ap (λ (t : ℕ). t * (x / 256 ^ suc n)) (pow-suc 256 n),
)
  where
    same : x / 256 ^ n / 256 ≡ x / 256 ^ suc n
    same = rw pow-suc (div-div-eq-div-mul x (256 ^ n) 256)

from_bytes_acc-be_digits :
    (n x acc : ℕ) → from_bytes_acc acc (be_digits n x) ≡ acc * 256 ^ n + x % 256 ^ n
from_bytes_acc-be_digits zero x acc = omega arith
from_bytes_acc-be_digits (suc n) x acc = omega (
  arith,
  from_bytes_acc-be_digits n x (acc * 256 + x / 256 ^ n % 256),
  mod-pow-suc n x,
  ap (λ (t : ℕ). acc * t) (pow-suc 256 n),
)

pub from_bytes-be_digits : (n x : ℕ) → x < 256 ^ n → from_bytes (be_digits n x) ≡ x
from_bytes-be_digits n x h = omega (arith, from_bytes_acc-be_digits n x 0, mod-eq_of_lt h)

from_bytes_acc-lt :
    (n acc : ℕ) (bs : List ℕ)
    → All IsByte bs
    → length bs ≤ n
    → from_bytes_acc acc bs < (acc + 1) * 256 ^ n
from_bytes_acc-lt n acc [] h le = grind (arith, one-le-pow n 256)
from_bytes_acc-lt zero acc (b ∷ bs) h le = absurd (omega arith)
from_bytes_acc-lt (suc n) acc (b ∷ bs) (hb, h) le = omega (
  arith,
  from_bytes_acc-lt n (acc * 256 + b) bs h (omega arith),
  ap (λ (t : ℕ). (acc + 1) * t) (pow-suc 256 n),
  byte_room,
)
  where
    byte_room : (b + 1) * 256 ^ n ≤ 256 * 256 ^ n
    byte_room = grind arith

-- A number of at most `n` bytes is below 256 ^ n.
pub from_bytes-lt : (n : ℕ) (bs : List ℕ) → All IsByte bs → length bs ≤ n → from_bytes bs < 256 ^ n
from_bytes-lt n bs h le = omega (arith, from_bytes_acc-lt n 0 bs h le)

All-drop : (n : ℕ) (bs : List ℕ) → All IsByte bs → All IsByte (drop n bs)
All-drop zero bs h = h
All-drop (suc n) [] h = tt
All-drop (suc n) (b ∷ bs) h = All-drop n bs h.1

All-take : (n : ℕ) (bs : List ℕ) → All IsByte bs → All IsByte (take n bs)
All-take zero bs h = tt
All-take (suc n) [] h = tt
All-take (suc n) (b ∷ bs) h = (h.0, All-take n bs h.1)

pub slice-IsByte : (bs : List ℕ) (lo hi : ℕ) → All IsByte bs → All IsByte (slice bs lo hi)
slice-IsByte bs lo hi h = All-take (hi - lo) (drop lo bs) (All-drop lo bs h)

pub from_bytes-slice-lt :
    (bs : List ℕ) (lo hi : ℕ) → All IsByte bs → from_bytes (slice bs lo hi) < 256 ^ (hi - lo)
from_bytes-slice-lt bs lo hi h =
    from_bytes-lt (hi - lo) (slice bs lo hi) (slice-IsByte bs lo hi h)
      (omega (arith, length-take (hi - lo) (drop lo bs)))
