-- ===== src/Double.antt =====
-- `double`, of which the policies use a few operations. The type and its operations are a parameter:
-- only the laws in `IsOrder` are relied on, and IEEE comparison has them, NaN included.
use cache_system_with_fuse.Base.{ℕ, ◌≡◌, Bool, true, false}

pub record Double : Type 1 where
  pub Carrier : Type 0
  pub of_size : ℕ → Carrier
  pub one : Carrier
  pub quarter : Carrier
  pub sub : Carrier → Carrier → Carrier
  pub mul : Carrier → Carrier → Carrier
  pub gt : Carrier → Carrier → Bool
  pub minus_dbl_max : Carrier

-- `>` is a strict order (of some pairs neither way round, where one is NaN).
pub record IsOrder (F : Double) : Type 0 where
  pub gt_irrefl : (x : F.Carrier) → F.gt x x ≡ false
  pub gt_trans : (x y z : F.Carrier) → F.gt x y ≡ true → F.gt y z ≡ true → F.gt x z ≡ true
