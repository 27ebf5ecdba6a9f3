-- ===== src/Executor/Tar/RoundTrip.antt =====
-- What is packed for a container and unpacked from it.
use flow_agent_x.Prelude.{
  ℕ, ◌≡◌, ◌∙◌, sym, ap, refl, true, false, none, some, [], ◌∷◌, ◌++◌, map, append-nil, Text,
}
use mathlib.Core.Path.{subst}
use flow_agent_x.Prelude.Exec.{ok, ret}
use flow_agent_x.Util.Files.{
  Node, dir, Entries, end, entry, FilePath, find_entry, set_entry, stat, change_at, Faults,
}
use flow_agent_x.Util.Files.Extract.{Distinct, joined, set_entry-absent}
use flow_agent_x.Util.Files.Names.{IsName, Named}
use flow_agent_x.Util.Files.Unpack.{IsQuiet}
use flow_agent_x.Util.Files.Places.{At}
use flow_agent_x.Util.Template.Replace.{contains}
use flow_agent_x.Executor.Tar.{
  TarFormat, TarFaults, close_tar, visit, walk_entries, walk, tar_archive_from_path, untar_files,
  untar_from_reader,
}
use flow_agent_x.Executor.Tar.Names.{dir_name-append}
use flow_agent_x.Executor.Tar.Pack.{
  Packable, Alone, packed, flat, archive, IsQuietTar, then_returns, visit_dir, file_text,
  walk_entries-flat,
}
use flow_agent_x.Executor.Tar.Unpack.{whole, Resolves, untar_files-Unpacks}

module _ (format : TarFormat) (writer : TarFaults) (quiet_writer : IsQuietTar writer) where
  tar-archive :
      (o : ℕ) (root base : Text) (es : Entries)
      → IsName base
      → Packable es
      → contains (b'/' ∷ base) (o ∷ root) ≡ false
      → Alone (o ∷ root) (base ∷ []) es
      → tar_archive_from_path format false writer ((o ∷ root) ++ b'/' ∷ base) (some (dir es))
        ≡ ret (ok (format.pack (archive base es)))
  unfolding tar_archive_from_path walk
  tar-archive o root base es b p c a =
      let file = file_text writer quiet_writer o root (base ∷ []) in
      let walked : walk false writer (o ∷ root) file (some (dir es)) []
          ≡ (ret none, archive base es) =
        then_returns (visit false writer (o ∷ root) file (some (dir es)))
          (walk_entries false writer (o ∷ root) file es) [] (packed (base ∷ []) true [] ∷ [])
          (visit_dir writer quiet_writer o root (base ∷ []) es [] c)
        ∙ walk_entries-flat writer quiet_writer o root (base ∷ []) es
            (packed (base ∷ []) true [] ∷ []) (λ e. cc) p a in
      ap (λ r. close_tar format writer.close (walk false writer r file (some (dir es)) []))
        (dir_name-append b'/' o root base b.0)
      ∙ ap (close_tar format writer.close) walked
      ∙ ap (λ e. close_tar format e (ret none, archive base es)) quiet_writer.close

  module _ (faults : Faults) (quiet : IsQuiet faults) (resolve : FilePath → Text → FilePath)
      (law : Resolves resolve) where
    -- A directory of readable files, at a path with a parent that is not empty, is packed on a machine
    -- that is not Windows and unpacked in a directory of another that does not have its name. If the
    -- machines refuse nothing, package tar reads what it has written, the system finds a path of names
    -- below the directory, and the path of the parent occurs in no path below it, then both calls
    -- return no error, and the directory stands at its new place with all that it held, empty
    -- directories too. Nothing else has changed there.
    pub untar-tar :
        (o : ℕ) (root base : Text) (es : Entries)
        → format.unpack (format.pack (archive base es)) ≡ (map whole (archive base es), none)
        → IsName base
        → Named es
        → Packable es
        → Distinct es
        → contains (b'/' ∷ base) (o ∷ root) ≡ false
        → Alone (o ∷ root) (base ∷ []) es
        → (dest : FilePath) (fs : Entries) (t : Node) → stat dest t ≡ some (dir fs)
        → find_entry base fs ≡ none
        → (stream : Text) × (t' : Node) × (tar_archive_from_path format false writer
              ((o ∷ root) ++ b'/' ∷ base)
              (some (dir es))
            ≡ ret (ok stream))
          × (untar_from_reader faults resolve format stream dest t ≡ (ret none, t'))
          × (change_at dest (λ x. some (dir (set_entry base (dir es) fs))) (some t) ≡ some t')
    unfolding untar_from_reader
    untar-tar o root base es reads b n p d c a dest fs t h free =
        let placed = entry base (dir es) end in
        let same : map whole (flat [] placed) ++ [] ≡ map whole (archive base es) =
          unfold flat in append-nil _ ∙ ap (map whole) (append-nil (archive base es)) in
        let (t', e, r) =
          untar_files-Unpacks faults quiet resolve law dest [] placed fs t none [] tt (b, n, tt)
            (p, tt) (refl, d, tt) (free, tt)
            (subst (λ x. stat x t ≡ some (dir fs)) (sym (append-nil dest)) h) in
        (
          format.pack (archive base es),
          t',
          tar-archive o root base es b p c a,
          ap (λ x. untar_files faults resolve dest x.1 x.0 t) reads
              ∙ ap (λ x. untar_files faults resolve dest none x t) (sym same)
              ∙ e
              ∙ unfold untar_files in refl,
          subst (λ x. At dest x t t') (sym (set_entry-absent base (dir es) fs free))
              (subst (λ x. At x (joined fs placed) t t') (append-nil dest) r),
        )
