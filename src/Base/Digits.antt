-- ===== src/Base/Digits.antt =====
-- Operations on binary digits work on the low digits and on the high ones apart.
use native.Mathlib.Nat.{pow-suc}
use native.Mathlib.Omega.{arith}
use mathlib.Core.Path.{◌≡◌, ◌∙◌}
use Prim.Native.Nat.{ℕ, zero, suc, ◌+◌, ◌*◌, ◌/◌, ◌%◌, ◌^◌, ◌<◌}

double : (n h : ℕ) → h * 2 ^ suc n ≡ h * 2 ^ n * 2
double n h = rw (pow-suc 2 n) (product h (2 ^ n))
  where
    product : (h p : ℕ) → h * (p * 2) ≡ h * p * 2
    product h p = omega arith

module _ (op digit : ℕ → ℕ → ℕ)
    (step : (a b : ℕ) → op a b ≡ op (a / 2) (b / 2) * 2 + digit (a % 2) (b % 2))
    (nothing : op 0 0 ≡ 0) where
  pub split :
      (n a h b g : ℕ)
      → a < 2 ^ n
      → b < 2 ^ n
      → op (a + h * 2 ^ n) (b + g * 2 ^ n) ≡ op a b + op h g * 2 ^ n
  split zero a h b g la lb =
      let za : a ≡ 0 = omega (arith, la) in
      let zb : b ≡ 0 = omega (arith, lb) in
      let uh : 0 + h * 1 ≡ h = omega arith in
      let ug : 0 + g * 1 ≡ g = omega arith in rw (za, zb, uh, ug) (omega (arith, nothing))
  split (suc n) a h b g la lb =
      let p = pow-suc 2 n in
      let ha : (a + h * 2 ^ suc n) / 2 ≡ a / 2 + h * 2 ^ n = omega (arith, double n h) in
      let hb : (b + g * 2 ^ suc n) / 2 ≡ b / 2 + g * 2 ^ n = omega (arith, double n g) in
      let ra : (a + h * 2 ^ suc n) % 2 ≡ a % 2 = omega (arith, double n h) in
      let rb : (b + g * 2 ^ suc n) % 2 ≡ b % 2 = omega (arith, double n g) in
      step (a + h * 2 ^ suc n) (b + g * 2 ^ suc n)
      ∙ rw
          (
            ha,
            hb,
            ra,
            rb,
            split n (a / 2) h (b / 2) g (omega (arith, p, la)) (omega (arith, p, lb)),
          )
          (omega (arith, double n (op h g), step a b))
