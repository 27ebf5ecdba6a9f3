-- ===== src/Util/Bytes.antt =====
-- util/common.go: the functions on bytes and texts besides the expansion of variables.
pub mod Trim
use flow_agent_x.Prelude.{
  ℕ, zero, suc, ◌+◌, ◌-◌, ◌*◌, Bool, true, false, Option, none, some, List, [], ◌∷◌, ◌++◌, ltb,
  ◌==◌, if◌then◌else◌, length, get_elem?, take, drop, Text, is_empty,
}

-- `src[i]`, for an index that the caller keeps in range.
abbrev pub byte_at : Text → ℕ → ℕ
byte_at s i = elim (get_elem? s i) [ none ↦ 0 | some c ↦ c ]

-- The loop of `IsByteStartWith`, whose guard leaves no fewer bytes in `src`.
unfoldable pub agrees : Text → Text → Bool
agrees src [] = true
agrees [] (d ∷ start) = false
agrees (c ∷ src) (d ∷ start) = let rest = agrees src start in if c == d then rest else false

unfoldable pub is_byte_start_with : Text → Text → Bool
unfolding agrees
is_byte_start_with src start = if ltb (length src) (length start) then false else agrees src start

-- The loop of `BytesTrimRight`: the bytes before `j` of `trim` are still to be compared.
unfoldable pub can_trim : Text → Text → ℕ → Bool
can_trim src trim zero = true
can_trim src trim (suc j) =
    let rest = can_trim src trim j in
    if byte_at src (length src - length trim + j) == byte_at trim j then rest else false

unfoldable pub bytes_trim_right : Text → Text → Text
unfolding can_trim
bytes_trim_right src trim =
    if ltb (length src) (length trim)
    then src
    else if can_trim src trim (length trim)
    then take (length src - length trim) src
    else src

-- The loop of `TrimLeftString` from index `i` on: the last index at which the texts agree.
unfoldable pub last_agreement : ℕ → Option ℕ → Text → Text → Option ℕ
last_agreement i index src [] = index
last_agreement i index [] (d ∷ trim) = index
last_agreement i index (c ∷ src) (d ∷ trim) =
    last_agreement (i + 1) (if c == d then some i else index) src trim

unfoldable pub trim_left_string : Text → Text → Text
unfolding last_agreement
trim_left_string src trim =
    if ltb (length src) (length trim)
    then src
    else elim (last_agreement 0 none src trim) [ none ↦ [] | some index ↦ drop (index + 1) src ]

-- The loop of `IndexOfFirstSpace`, which compares the index and not the byte: the index that it
-- returns, if any, of `n` bytes from index `i` on.
unfoldable pub index_of_first_space : ℕ → ℕ → Option ℕ
index_of_first_space i zero = none
index_of_first_space i (suc n) =
    let rest = index_of_first_space (i + 1) n in if i == b' ' then some i else rest

-- `o.Uint16` of each pair of bytes, for binary.BigEndian; a last single byte is the error rune.
unfoldable pub utf16_units : Text → List ℕ
utf16_units [] = []
utf16_units (b ∷ []) = 65533 ∷ []
utf16_units (hi ∷ lo ∷ s) = (hi * 256 + lo) ∷ utf16_units s
