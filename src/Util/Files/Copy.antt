-- ===== src/Util/Files/Copy.antt =====
-- util/files.go: CopyFile and CopyDir.
pub mod Whole
use flow_agent_x.Prelude.{
  ℕ, zero, suc, Bool, true, false, Option, none, some, List, [], ◌∷◌, ◌++◌, Text,
}
use flow_agent_x.Prelude.Exec.{
  Err, Result, ok, err, Outcome, ret, panic, hang, Exec, pure, throw, must, panic_if_err, recover,
  ◌>>=◌, ◌>>◌,
}
use flow_agent_x.Util.Files.{
  Node, leaf, dir, Entries, end, entry, FilePath, path_error, stat, mkdir_all, write_at, overwrite,
  content, Faults, change,
}

-- os.Open: a directory opens, and fails when it is read.
abbrev pub open_error : Option Node → Option Err
open_error none = some path_error
open_error (some (leaf link (ok c))) = none
open_error (some (leaf link (err e))) = some e
open_error (some (dir es)) = none

module _ (faults : Faults) where
  unfoldable pub copy_body : (src dst : FilePath) → Exec Node (Option Err)
  unfolding stat write_at
  copy_body src dst =
      (λ t. panic_if_err (open_error (stat src t)) t)
      >> change (faults.touch dst) (λ t. write_at dst (overwrite []) (some t))
      >> ((λ t. must (content (stat src t)) t) >>= λ bytes.
          change none (λ t. write_at dst (overwrite bytes) (some t)))
      >> panic_if_err (faults.finish dst)
      >> pure (faults.close dst)

  unfoldable pub copy_file : (src dst : FilePath) → Exec Node (Option Err)
  unfolding copy_body
  copy_file src dst = recover (λ e. pure (some e)) (copy_body src dst)

  -- The loop of CopyDir, with the call of itself.
  unfoldable pub copy_entries :
      ((src dst : FilePath) → Exec Node (Option Err))
      → (src dst : FilePath) → Entries
      → Exec Node (Unit {0})
  unfolding copy_file
  copy_entries rec src dst end = pure tt
  copy_entries rec src dst (entry n (dir cs) es) =
      (rec (src ++ n ∷ []) (dst ++ n ∷ []) >>= panic_if_err) >> copy_entries rec src dst es
  copy_entries rec src dst (entry n (leaf true c) es) = copy_entries rec src dst es
  copy_entries rec src dst (entry n (leaf false c) es) =
      (copy_file (src ++ n ∷ []) (dst ++ n ∷ []) >>= panic_if_err) >> copy_entries rec src dst es

  -- ioutil.ReadDir, and the loop.
  abbrev pub copy_listed :
      ((src dst : FilePath) → Exec Node (Option Err))
      → (src dst : FilePath) → Option Node
      → Exec Node (Unit {0})
  copy_listed rec src dst none = throw path_error
  copy_listed rec src dst (some (leaf link c)) = throw path_error
  copy_listed rec src dst (some (dir es)) = copy_entries rec src dst es

  abbrev pub copy_into :
      ((src dst : FilePath) → Exec Node (Option Err))
      → (src dst : FilePath) → Exec Node (Option Err)
  copy_into rec src dst =
      change (faults.touch dst) (mkdir_all dst)
      >> (λ t. copy_listed rec src dst (stat src t) t)
      >> pure none

  -- Behind the two calls of Stat. The panics for a source that is no directory and for a destination
  -- that exists are recovered without a handler while err is nil: the call returns nil.
  unfoldable pub copy_checked :
      ((src dst : FilePath) → Exec Node (Option Err))
      → (src dst : FilePath) → Option Node
      → Option Node
      → Exec Node (Option Err)
  unfolding mkdir_all stat copy_entries
  copy_checked rec src dst none there = throw path_error
  copy_checked rec src dst (some (leaf link c)) there = pure none
  copy_checked rec src dst (some (dir es)) (some t) = pure none
  copy_checked rec src dst (some (dir es)) none = copy_into rec src dst

  -- On fuel, for the depth of the directories.
  unfoldable pub copy_dir : ℕ → (src dst : FilePath) → Exec Node (Option Err)
  unfolding copy_checked
  copy_dir zero src dst = λ t. (hang, t)
  copy_dir (suc fuel) src dst =
      let deeper = copy_dir fuel in
      recover (λ e. pure (some e)) (λ t. copy_checked deeper src dst (stat src t) (stat dst t) t)
