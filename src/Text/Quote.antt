-- ===== src/Text/Quote.antt =====
-- `%q` of package `fmt` on ASCII text; bytes from 128 on stand as they are.
use app_gocms.Prelude.{ℕ, ◌+◌, ◌/◌, ◌%◌, ◌||◌, List, [], ◌∷◌, ◌++◌, eqb, ltb, if◌then◌else◌}

hex_digit : ℕ → ℕ
hex_digit n = if ltb n 10 then b'0' + n else b'a' + n % 10

-- What stands for one byte.
quote_byte : ℕ → List ℕ
unfolding hex_digit
quote_byte c =
    if eqb c b'"' || eqb c b'\\'
    then b'\\' ∷ c ∷ []
    else if eqb c 7
    then b'\\' ∷ b'a' ∷ []
    else if eqb c 8
    then b'\\' ∷ b'b' ∷ []
    else if eqb c 12
    then b'\\' ∷ b'f' ∷ []
    else if eqb c 10
    then b'\\' ∷ b'n' ∷ []
    else if eqb c 13
    then b'\\' ∷ b'r' ∷ []
    else if eqb c 9
    then b'\\' ∷ b't' ∷ []
    else if eqb c 11
    then b'\\' ∷ b'v' ∷ []
    else if ltb c 32 || eqb c 127
    then b'\\' ∷ b'x' ∷ hex_digit (c / 16) ∷ hex_digit (c % 16) ∷ []
    else c ∷ []

quote_bytes : List ℕ → List ℕ
unfolding quote_byte
quote_bytes [] = []
quote_bytes (c ∷ s) = quote_byte c ++ quote_bytes s

unfoldable pub quote : List ℕ → List ℕ
unfolding quote_bytes
quote s = b'"' ∷ (quote_bytes s ++ b'"' ∷ [])
