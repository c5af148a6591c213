-- ===== src/Pkg/Fold.antt =====
-- `strings.EqualFold`, on the ASCII texts that addresses are.
use archway.Common.{ℕ, ◌+◌, ◌≡◌, refl, Bool, true, ◌&&◌, map, leb, if◌then◌else◌}
use archway.Common.Key.{Text, bytes_eq, bytes_eq_iff}

unfoldable pub to_lower : ℕ → ℕ
to_lower c = if leb b'A' c && leb c b'Z' then c + 32 else c

unfoldable pub equal_fold : Text → Text → Bool
unfolding to_lower bytes_eq
equal_fold s t = bytes_eq (map to_lower s) (map to_lower t)

pub equal_fold_refl : (s : Text) → equal_fold s s ≡ true
unfolding equal_fold
equal_fold_refl s = (bytes_eq_iff (map to_lower s) (map to_lower s)).1 refl
