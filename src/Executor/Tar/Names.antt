-- ===== src/Executor/Tar/Names.antt =====
-- The names of the files in a tar archive (tarArchiveFromPath).
use flow_agent_x.Prelude.{
  ℕ, ◌≡◌, ap, refl, false, none, some, [], ◌∷◌, ◌++◌, Text, Lacks, has_prefix, arith,
}
use flow_agent_x.Util.Template.Replace.{contains, replace_all-front}
use flow_agent_x.Executor.Tar.{up_to_last, dir_from, dir_name, trim_prefix, header_name}

-- A path below the root, in which the root occurs only in front, gets the path from the root.
pub header_name-below :
    (o : ℕ) (root q : Text)
    → contains (b'/' ∷ q) (o ∷ root) ≡ false
    → header_name false (o ∷ root) ((o ∷ root) ++ b'/' ∷ q) ≡ q
unfolding header_name trim_prefix has_prefix
header_name-below o root q h = rw (replace_all-front o root (b'/' ∷ q) h) refl

up_to_last-Lacks : (sep : ℕ) (n : Text) → Lacks sep n → up_to_last sep n ≡ none
unfolding up_to_last
up_to_last-Lacks sep [] h = refl
up_to_last-Lacks sep (c ∷ n) h = rw (up_to_last-Lacks sep n h.1) (ground (arith, h.0))

up_to_last-append : (sep : ℕ) (d n : Text) → Lacks sep n → up_to_last sep (d ++ sep ∷ n) ≡ some d
unfolding up_to_last
up_to_last-append sep [] n h = rw (up_to_last-Lacks sep n h) (ground arith)
up_to_last-append sep (c ∷ d) n h = rw (up_to_last-append sep d n h) refl

pub dir_name-append :
    (sep c : ℕ) (d n : Text) → Lacks sep n → dir_name sep ((c ∷ d) ++ sep ∷ n) ≡ c ∷ d
unfolding dir_name
dir_name-append sep c d n h = ap (dir_from sep) (up_to_last-append sep (c ∷ d) n h)
