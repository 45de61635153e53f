-- ===== src/Prelude/Versions.antt =====
-- The wire's `Version`, and its `==`.
use Prim.Native.Nat.{ℕ}
use mathlib.Core.Path.{◌≡◌}
use mathlib.Core.Bool.{Bool, true, ◌&&◌}
use native.Mathlib.Omega.{arith}
use passwall_node.Prelude.Tests.{◌==◌}

-- The two fields of the wire's `Version`.
pub record Version : Type 0 where
  pub epoch : ℕ
  pub version : ℕ

-- `a == b`
unfoldable pub same_version : Version → Version → Bool
same_version a b = a.epoch == b.epoch && a.version == b.version

pub same_version→eq : (a b : Version) → same_version a b ≡ true → a ≡ b
unfolding same_version
same_version→eq a b h = ground arith

pub same_version_refl : (a : Version) → same_version a a ≡ true
unfolding same_version
same_version_refl a = ground arith
