-- ===== src/Api/Names.antt =====
-- api/util.go: the form of a message, and the names of cached files.
use flow_agent_x.Prelude.{
  ℕ, ◌≡◌, refl, [], ◌∷◌, ◌++◌, append_assoc, arith, ◌==◌, if◌then◌else◌, Text, Lacks,
}
use flow_agent_x.Prelude.Exec.{Result, ok, err}
use flow_agent_x.Util.Bytes.{trim_left_string}
use flow_agent_x.Util.Bytes.Trim.{trim_left_string_lem}

unfoldable pub build_message : Text → Text → Text
build_message event body = (event ++ b'\n' ∷ []) ++ body

-- What the server reads from a message: the bytes before and behind the first line break.
unfoldable pub split_line : Text → Text × Text
split_line [] = ([], [])
split_line (c ∷ s) =
    let (event, body) = split_line s in if c == b'\n' then ([], s) else (c ∷ event, body)

-- A message tells its event from its body, where the event has no line break, as all events of the
-- client have none.
pub split_line-build_message :
    (event body : Text) → Lacks b'\n' event → split_line (build_message event body) ≡ (event, body)
unfolding build_message split_line
split_line-build_message [] body h = refl
split_line-build_message (c ∷ event) body h =
    ground (arith, split_line-build_message event body h.1, append_assoc event (b'\n' ∷ []) body)

-- The encoding of encoding/base64, as a pair of functions.
module _ (encode : Text → Text) (decode : Text → Result Text) where
  abbrev pub without_separator : Text → Text
  without_separator [] = []
  without_separator (c ∷ s) = if c == b'/' then s else c ∷ s

  unfoldable pub encode_cache_name : Text → Text → Text
  encode_cache_name workspace full_path =
      encode (without_separator (trim_left_string full_path workspace))

  unfoldable pub decode_cache_name : Text → Text
  decode_cache_name name = elim (decode name) [ err e ↦ [] | ok text ↦ text ]

  -- The name of a path under the workspace comes back from its encoding, without the workspace and
  -- the separator, if the workspace does not end in a separator.
  pub decode_cache_name-encode_cache_name :
      ((s : Text) → decode (encode s) ≡ ok s)
      → (front : Text) (c : ℕ) (path : Text)
      → decode_cache_name (encode_cache_name (front ++ c ∷ []) ((front ++ c ∷ []) ++ b'/' ∷ path))
        ≡ path
  unfolding encode_cache_name decode_cache_name
  decode_cache_name-encode_cache_name law front c path =
      rw
        (
          append_assoc front (c ∷ []) (b'/' ∷ path),
          trim_left_string_lem front front c (b'/' ∷ path) refl,
        )
        (rw (law path, decode_cache_name) refl)
