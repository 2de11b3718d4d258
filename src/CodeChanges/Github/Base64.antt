-- ===== src/CodeChanges/Github/Base64.antt =====
-- Python's `base64.b64encode` on bytes, with which the publisher sends the contents of files.
use ai_hq.Prelude.{ℕ, ◌+◌, ◌*◌, String, List, [], ◌∷◌}
use Prim.Native.Nat.{◌/◌, ◌%◌}
use Prim.Native.String.{◌++◌}
use ai_hq.Recovery.Bounded.{cut}
use ai_hq.Delivery.Identity.{cut_left}

-- The letter for six bits.
unfoldable pub letter : ℕ → String
unfolding cut cut_left
letter n = cut 1 (cut_left n "ABCDEFGHIJKLMNOPQRSTUVWXYZabcdefghijklmnopqrstuvwxyz0123456789+/")

-- `base64.b64encode(data).decode("ascii")`
unfoldable pub b64encode : List ℕ → String
unfolding letter
b64encode [] = ""
b64encode (a ∷ []) = letter (a / 4) ++ letter (a % 4 * 16) ++ "=="
b64encode (a ∷ b ∷ []) =
    letter (a / 4) ++ letter (a % 4 * 16 + b / 16) ++ letter (b % 16 * 4) ++ "="
b64encode (a ∷ b ∷ c ∷ rest) =
    letter (a / 4)
    ++ letter (a % 4 * 16 + b / 16)
    ++ letter (b % 16 * 4 + c / 64)
    ++ letter (c % 64)
    ++ b64encode rest
