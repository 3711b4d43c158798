-- ===== src/State/Uuid.antt =====
-- The two regular expressions of internal/state/decode.go, as lists of character classes.
use ruk.Prelude.{ℕ, Bool, true, false, ◌&&◌, ◌||◌, List, [], ◌∷◌, ◌++◌, String, leb, ◌==◌}
use ruk.Prelude.Text.{codes}

-- A class of the expression, with the letters of either case where the expression has (?i).
pub data CharClass : Type 0 where
  hex lower_hex dash four variant : CharClass

fits : CharClass → ℕ → Bool
fits hex c = (leb b'0' c && leb c b'9') || (leb b'a' c && leb c b'f') || (leb b'A' c && leb c b'F')
fits lower_hex c = (leb b'0' c && leb c b'9') || (leb b'a' c && leb c b'f')
fits dash c = c == b'-'
fits four c = c == b'4'
fits variant c = c == b'8' || c == b'9' || c == b'a' || c == b'b' || c == b'A' || c == b'B'

-- `^...$`: each character fits its class, and neither list is longer.
matches : List CharClass → List ℕ → Bool
unfolding fits
matches [] [] = true
matches (k ∷ ks) (c ∷ cs) = fits k c && matches ks cs
matches _ _ = false

abbrev repeat : ℕ → CharClass → List CharClass
repeat ℕ.zero k = []
repeat (ℕ.suc n) k = k ∷ repeat n k

abbrev uuid_pattern : List CharClass
uuid_pattern =
    repeat 8 hex
    ++ (dash
        ∷ (repeat 4 hex
            ++ (dash
                ∷ four
                ∷ (repeat 3 hex ++ (dash ∷ variant ∷ (repeat 3 hex ++ (dash ∷ repeat 12 hex)))))))

-- validUUID, and the keeper pattern of lifecycle/activity.go, which is the same expression.
unfoldable pub valid_uuid : String → Bool
unfolding matches
valid_uuid value = matches uuid_pattern (codes value)

unfoldable pub valid_fingerprint : String → Bool
unfolding matches
valid_fingerprint value = matches (repeat 64 lower_hex) (codes value)
