-- ===== src/Scenarios/Tars.antt =====
-- The tar streams of executor/docker_util.go at concrete inputs.
use flow_agent_x.Prelude.{
  suc, zero, ◌≡◌, arith, refl, true, false, none, some, [], ◌∷◌, map, Text, codes, text_eq,
  if◌then◌else◌,
}
use flow_agent_x.Prelude.Exec.{ok, err, ret}
use flow_agent_x.Util.Files.{
  Node, leaf, dir, Entries, end, entry, find_entry, set_entry, stat, join_path, change_at,
  read_file,
}
use flow_agent_x.Util.Files.Names.{join_path-path_text}
use flow_agent_x.Util.Template.Replace.{contains}
use flow_agent_x.Executor.Tar.{
  TarFile, TarFormat, TarFaults, header_name, tar_archive_from_path, untar_file, untar_from_reader,
  write_too_long,
}
use flow_agent_x.Executor.Tar.Pack.{IsQuietTar, flat}
use flow_agent_x.Executor.Tar.Unpack.{whole, Resolves}
use flow_agent_x.Executor.Tar.RoundTrip.{untar-tar}
use flow_agent_x.Executor.Tar.Succeeds.{CanPack, tar_archive_from_path-CanPack}
use flow_agent_x.Scenarios.Archives.{no_faults, no_faults-IsQuiet, pack, reads, letter-IsName}

-- The format of the zip files of the tests, with a mark for a directory in front of a name.
abbrev marked : TarFile → Text × Text
marked f = ((if f.is_dir then 1 else 0) ∷ f.name, f.bytes)

abbrev unmarked : Text × Text → TarFile
unmarked ([], bytes) = record { name = []; is_dir = false; bytes = bytes }
unmarked (zero ∷ name, bytes) = record { name = name; is_dir = false; bytes = bytes }
unmarked (suc m ∷ name, bytes) = record { name = name; is_dir = true; bytes = bytes }

abbrev tar : TarFormat
tar = record {
  pack = λ files. pack (map marked files);
  unpack = λ s. (map (λ f. whole (unmarked f)) (reads s).2, none);
}

abbrev no_tar_faults : TarFaults
no_tar_faults = record { header = λ n. none; close_file = λ n. none; close = none }

no_tar_faults-IsQuiet : IsQuietTar no_tar_faults
no_tar_faults-IsQuiet = record { header = λ n. refl; close_file = λ n. refl; close = refl }

join_path-Resolves : Resolves join_path
join_path-Resolves dest p h a = join_path-path_text dest (p, []) (h, a)

-- A cache with an empty directory and one that holds a file.
abbrev cache : Entries
cache =
    entry (codes "e") (dir end)
      (entry (codes "d") (dir (entry (codes "b") (leaf false (ok (codes "B"))) end)) end)

abbrev other : Node
other = dir (entry (codes "w") (leaf false (ok (codes "W"))) end)

untar-tar_example :
    (stream : Text) × (t' : Node) × (tar_archive_from_path tar false no_tar_faults
        (codes "/ws/c")
        (some (dir cache))
      ≡ ret (ok stream))
    × (untar_from_reader no_faults join_path tar stream [] other ≡ (ret none, t'))
    × (change_at []
          (λ x. some (
            dir (
              set_entry
                (codes "c")
                (dir cache)
                (entry (codes "w") (leaf false (ok (codes "W"))) end))))
          (some other)
        ≡ some t')
unfolding flat contains text_eq find_entry stat
untar-tar_example =
    untar-tar tar no_tar_faults no_tar_faults-IsQuiet no_faults no_faults-IsQuiet join_path
      join_path-Resolves b'/' (codes "ws") (codes "c") cache refl
      (letter-IsName b'c' (omega arith) (omega arith))
      (
        letter-IsName b'e' (omega arith) (omega arith),
        tt,
        (
          letter-IsName b'd' (omega arith) (omega arith),
          (letter-IsName b'b' (omega arith) (omega arith), tt),
          tt,
        ),
      )
      (tt, (((refl, codes "B", refl), tt), tt)) (refl, tt, (refl, (refl, tt), tt)) refl
      (refl, tt, (refl, (refl, tt), tt)) [] (entry (codes "w") (leaf false (ok (codes "W"))) end)
      other refl refl

-- A link to an empty file is archived as a file without bytes.
abbrev linked : Entries
linked = entry (codes "l") (leaf true (ok [])) end

abbrev linked_stream : Text
linked_stream = tar.pack (
    record { name = codes "c"; is_dir = true; bytes = [] }
    ∷ record { name = codes "c/l"; is_dir = false; bytes = [] }
    ∷ [])

CanPack_example : CanPack linked
unfolding tar_archive_from_path text_eq
CanPack_example =
    tar_archive_from_path-CanPack tar false no_tar_faults (codes "/ws/c") linked_stream linked refl

-- A link to a file that is not empty.
link_test :
    tar_archive_from_path tar false no_tar_faults
      (codes "/ws/c")
      (some (dir (entry (codes "l") (leaf true (ok (codes "L"))) end)))
    ≡ ret (err write_too_long)
unfolding tar_archive_from_path
link_test = refl

-- The path of the parent is cut out of a path wherever it occurs: these two files get one name.
name_test : header_name false (codes "/a") (codes "/a/b/a/x") ≡ codes "b/x"
unfolding header_name
name_test = refl

same_name_test : header_name false (codes "/a") (codes "/a/b/x") ≡ codes "b/x"
unfolding header_name
same_name_test = refl

-- On Windows the separators are replaced last.
windows_name_test : header_name true (codes "C:\\a") (codes "C:\\a\\b\\x") ≡ codes "b/x"
unfolding header_name
windows_name_test = refl

-- A file in the root directory: all separators are cut out.
root_name_test : header_name false (codes "/") (codes "/c/d/b") ≡ codes "cdb"
unfolding header_name
root_name_test = refl

-- A shorter file over a longer one: the end of the longer one stays.
over_test :
    read_file
      (codes "w" ∷ [])
      (untar_file no_faults join_path []
        (record { name = codes "w"; is_dir = false; bytes = codes "ab" })
        none
        (dir (entry (codes "w") (leaf false (ok (codes "WXYZ"))) end))).1
    ≡ ok (codes "abYZ")
unfolding untar_file read_file join_path text_eq
over_test = refl
