-- ===== src/Common/Modular.antt =====
-- Congruence of remainders.
use Prim.Native.Nat.{ℕ, ◌+◌, ◌-◌, ◌*◌, ◌/◌, ◌%◌, ◌<◌}
use mathlib.Core.Path.{◌≡◌, ◌∙◌}
use native.Mathlib.Omega.{arith}
use native.Mathlib.Nat.{mod-add-mod, add-mul-mod_self_left, div-add-mod}

-- `(k - x) + x` is `k`, modulo `n`.
pub mod-sub-add : (n k x : ℕ) → 0 < n → ((k + (n - x % n)) % n + x) % n ≡ k % n
mod-sub-add n k x h =
    let whole : k + (n - x % n) + x ≡ k + n * (1 + x / n) = grind (arith, div-add-mod x n) in
    mod-add-mod (k + (n - x % n)) n x ∙ (rw whole (add-mul-mod_self_left k n (1 + x / n)))
