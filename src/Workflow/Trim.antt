-- ===== src/Workflow/Trim.antt =====
-- Rust's `str::trim`, which crates/rshome-wf/src/rtc.rs applies to guards: it takes the characters
-- that Unicode calls `White_Space` from both ends.
use Prim.Native.Char.{code}
use Prim.Native.String.{String, [], ◌∷◌}
use zt_edge.Common.{ℕ, Bool, ◌&&◌, ◌||◌, leb, ◌==◌, if◌then◌else◌}

unfoldable pub is_whitespace : ℕ → Bool
is_whitespace c =
    (leb 9 c && leb c 13)
    || (c == 32 || c == 133 || c == 160 || c == 5760 || (leb 8192 c && leb c 8202))
    || (c == 8232 || c == 8233 || c == 8239 || c == 8287 || c == 12288)

unfoldable pub trim_start : String → String
trim_start [] = []
trim_start (c ∷ s) = let rest = trim_start s in if is_whitespace (code c) then rest else c ∷ s

-- A character in front of a text whose end is trimmed.
unfoldable pub put_front : ℕ → String → String → String
put_front c whole [] = if is_whitespace c then [] else whole
put_front c whole (d ∷ rest) = whole

unfoldable pub trim_end : String → String
trim_end [] = []
trim_end (c ∷ s) = let rest = trim_end s in put_front (code c) (c ∷ rest) rest

unfoldable pub trim : String → String
trim s = trim_end (trim_start s)
