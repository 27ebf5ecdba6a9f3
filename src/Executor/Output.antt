-- ===== src/Executor/Output.antt =====
-- executor/docker_util.go, executor/executor.go: what is copied between a shell and the channels.
use flow_agent_x.Prelude.{
  ℕ, ◌≡◌, ap, refl, map, List, ◌⊎◌, inl, inr, [], ◌∷◌, ◌++◌, if◌then◌else◌, length, take, drop, ltb,
  Text, text_eq, arith,
}
use flow_agent_x.Prelude.Exec.{Err, Result, ok, err}
use flow_agent_x.Executor.Script.{Os, new_line_for_os}

abbrev pub docker_header_size : ℕ
docker_header_size = 8

abbrev std_in_prefix : Text
std_in_prefix = 1 ∷ 0 ∷ 0 ∷ 0 ∷ []

abbrev std_err_prefix : Text
std_err_prefix = 2 ∷ 0 ∷ 0 ∷ 0 ∷ []

unfoldable pub remove_docker_header : Text → Text
unfolding text_eq
remove_docker_header in' =
    if ltb (length in') docker_header_size
    then in'
    else if text_eq (take 4 in') std_in_prefix
    then drop docker_header_size in'
    else if text_eq (take 4 in') std_err_prefix
    then drop docker_header_size in'
    else in'

-- A header of the engine's stream: the kind of the stream, three zeros, and the size in four bytes.
abbrev pub docker_header : (kind a b c d : ℕ) → Text
docker_header kind a b c d = kind ∷ 0 ∷ 0 ∷ 0 ∷ a ∷ b ∷ c ∷ d ∷ []

-- What is read from the engine with a header of its output or error stream in front is passed on
-- without the header, whatever the size in it and whatever follows.
pub remove_docker_header_lem :
    (kind a b c d : ℕ) (payload : Text)
    → (kind ≡ 1) ⊎ (kind ≡ 2)
    → remove_docker_header (docker_header kind a b c d ++ payload) ≡ payload
unfolding remove_docker_header
remove_docker_header_lem kind a b c d payload (inl e) = rw e (ground arith)
remove_docker_header_lem kind a b c d payload (inr e) = rw e (ground arith)

-- The bytes that writeTtyIn writes for one input: a carriage return is the line break of the system.
unfoldable pub tty_input : Os → Text → Text
tty_input os input = if text_eq input (13 ∷ []) then new_line_for_os os else input

-- writeTtyOut, by what its reads give: it ends at the first error. `encode` is base64.
unfoldable pub write_tty_out : (Text → Text) → List (Result Text) → List Text
unfolding remove_docker_header
write_tty_out encode [] = []
write_tty_out encode (ok bytes ∷ reads) =
    encode (remove_docker_header bytes) ∷ write_tty_out encode reads
write_tty_out encode (err e ∷ reads) = []

-- What is read before the first error is passed on in order, each read in one piece without its
-- header; nothing behind the error is.
pub write_tty_out_lem :
    (encode : Text → Text) (chunks : List Text) (e : Err) (reads : List (Result Text))
    → write_tty_out encode (map ok chunks ++ err e ∷ reads)
      ≡ map (λ c. encode (remove_docker_header c)) chunks
unfolding write_tty_out
write_tty_out_lem encode [] e reads = refl
write_tty_out_lem encode (c ∷ chunks) e reads =
    ap (λ out. encode (remove_docker_header c) ∷ out) (write_tty_out_lem encode chunks e reads)
