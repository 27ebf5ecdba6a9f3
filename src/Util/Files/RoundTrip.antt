-- ===== src/Util/Files/RoundTrip.antt =====
-- What Zip packs is what Unzip unpacks.
use flow_agent_x.Prelude.{
  ◌≡◌, ◌≢◌, ◌∙◌, sym, ap, refl, none, some, List, [], ◌∷◌, ◌++◌, map, append_assoc, append-nil, All,
  false, Text, codes,
}
use mathlib.Core.List.{map-append}
use flow_agent_x.Prelude.Exec.{ok, err, ret, Exec, pure, panic_if_err, recover, seq_returns, ◌>>◌}
use flow_agent_x.Util.Files.{
  Node, leaf, dir, Entries, end, entry, FilePath, stat, change_at, as_dir, mkdir_all, write_at,
  overwrite, read_file, Faults, change,
}
use flow_agent_x.Util.Files.Slots.{
  change_at_mono, stat-change_at, change_at-absent, read_file-write_at,
}
use flow_agent_x.Util.Files.Extract.{
  Item, onto, under, items_of, prune, Distinct, Apart-end, extract, extracted, extract-extracted,
  extracted-onto, extracted-none, extract-items_of, first_path,
}
use flow_agent_x.Util.Files.Names.{path_text, IsBelow, Named, items_of-IsBelow}
use flow_agent_x.Util.Files.Zip.{
  Archive, ZipFile, ZipFormat, add_file, add_entries, add_files, close_zip, zip_body, zip,
  unzip_files, unzip,
}
use flow_agent_x.Util.Files.Unpack.{IsQuiet, change_returns, file_of, unzip_files-extract}

abbrev pub named : Text → Item → Text × Text
named base i = (base ++ path_text i.0, i.1)

abbrev pub slash : Text
slash = codes "/"

named-under :
    (base n : Text) (is : List Item)
    → All IsBelow is
    → map (named ((base ++ n) ++ slash)) is ≡ map (named base) (map (under n) is)
named-under base n [] a = refl
named-under base n (([], c) ∷ is) a = absurd (a.0.0 refl)
named-under base n ((k ∷ p, c) ∷ is) a =
    let e : ((base ++ n) ++ slash) ++ path_text (k ∷ p) ≡ base ++ (n ++ b'/' ∷ path_text (k ∷ p)) =
      append_assoc (base ++ n) slash (path_text (k ∷ p))
      ∙ append_assoc base n (b'/' ∷ path_text (k ∷ p)) in
    λ i. (e i, c) ∷ named-under base n is a.1 i

-- A file of the archive as the reader shows it.
abbrev pub plain : Text × Text → ZipFile
plain f = record { name = f.0; is_dir = false; body = ok f.1 }

plain-named : (is : List Item) → map plain (map (named []) is) ≡ map file_of is
plain-named [] = refl
plain-named (i ∷ is) = ap (λ fs. plain (named [] i) ∷ fs) (plain-named is)

module _ (faults : Faults) (quiet : IsQuiet faults) where
  add_file_ok :
      (n c : Text) (files : Archive)
      → add_file faults n (ok c) files ≡ (ret tt, files ++ (n, c) ∷ [])
  unfolding add_file
  add_file_ok n c files = rw (quiet.zip_entry n) refl

  -- The writer gets the files that can be read, in order, each under its path.
  add_entries-items_of :
      (base : Text) (es : Entries) (files : Archive)
      → Named es
      → add_entries faults slash base es files ≡ (ret tt, files ++ map (named base) (items_of es))
  unfolding add_entries items_of add_file
  add_entries-items_of base end files h = ap (λ x. (ret tt, x)) (sym (append-nil files))
  add_entries-items_of base (entry n (leaf link (err e)) es) files h =
      add_entries-items_of base es files h.1
  add_entries-items_of base (entry n (leaf link (ok c)) es) files h =
      seq_returns (add_file faults (base ++ n) (ok c)) (add_entries faults slash base es) files
        (files ++ (base ++ n, c) ∷ []) tt _ (add_file_ok (base ++ n) c files)
        (add_entries-items_of base es (files ++ (base ++ n, c) ∷ []) h.1
          ∙ ap (λ x. (ret tt, x)) (append_assoc files ((base ++ n, c) ∷ []) _))
  add_entries-items_of base (entry n (dir cs) es) files h =
      seq_returns (add_entries faults slash ((base ++ n) ++ slash) cs)
        (add_entries faults slash base es) files
        (files ++ map (named ((base ++ n) ++ slash)) (items_of cs)) tt _
        (add_entries-items_of ((base ++ n) ++ slash) cs files h.1)
        (add_entries-items_of base es _ h.2
          ∙ ap (λ x. (ret tt, x))
              (append_assoc files _ _
                ∙ ap (λ x. files ++ (x ++ map (named base) (items_of es)))
                    (named-under base n (items_of cs) (items_of-IsBelow cs h.1))
                ∙ ap (λ x. files ++ x)
                    (sym (map-append (named base) (map (under n) (items_of cs)) (items_of es)))))

  module _ (format : ZipFormat) where
    abbrev pub packed : Entries → Text
    packed es = format.pack (map (named []) (items_of es))

    zip-packed :
        (src z : FilePath) (es : Entries) (t t1 : Node)
        → Named es
        → write_at z (overwrite []) (some t) ≡ some t1
        → stat src t1 ≡ some (dir es)
        → (t2 : Node) × (zip faults format src z slash t ≡ (ret none, t2))
          × (read_file z t2 ≡ ok (packed es))
    unfolding zip zip_body add_files read_file
    zip-packed src z es t t1 h e f =
        let (t2, e2, e3) = read_file-write_at z (overwrite []) (packed es) (some t) t1 e in
        let make = change (faults.touch z) (λ x. write_at z (overwrite []) (some x)) in
        let fill : Exec Node (Unit {0}) =
          λ x. close_zip faults format z (add_files faults slash (stat src x) []) x in
        let entries = ap (λ x. add_files faults slash x []) f ∙ add_entries-items_of [] es [] h in
        let filled : fill t1 ≡ (ret tt, t2) =
          ap (λ x. close_zip faults format z x t1) entries
          ∙ seq_returns (panic_if_err faults.zip_close)
              (change none (λ x. write_at z (overwrite (packed es)) (some x))) t1 t1 tt _
              (rw quiet.zip_close refl)
              (change_returns none (λ x. write_at z (overwrite (packed es)) (some x)) t1 t2 refl
                e2) in
        let done : zip_body faults format src z slash t ≡ (ret none, t2) =
          seq_returns (make >> fill) (pure none) t t2 tt (ret none, t2)
            (seq_returns make fill t t1 tt (ret tt, t2)
              (change_returns (faults.touch z) (λ x. write_at z (overwrite []) (some x)) t t1
                (quiet.touch z) e)
              filled)
            refl in
        (t2, rw (done, recover) refl, e3)

    -- The tree at a place where nothing stood.
    extract-new :
        (dest : FilePath) (es : Entries) (u u0 : Node)
        → Distinct es
        → items_of es ≢ []
        → stat dest u ≡ none
        → mkdir_all dest u ≡ some u0
        → (v : Node) × (extract (map (onto dest) (items_of es)) u ≡ some v)
          × (change_at dest (λ x. some (dir (prune es))) (some u) ≡ some v)
    unfolding mkdir_all
    extract-new dest es u u0 d h vacant free = go (items_of es) h (first_path es) refl
      where
        go :
            (is : List Item)
            → is ≢ []
            → ((c : Text) (js : List Item) → is ≢ ([], c) ∷ js)
            → items_of es ≡ is
            → (v : Node) × (extract (map (onto dest) is) u ≡ some v)
              × (change_at dest (λ x. some (dir (prune es))) (some u) ≡ some v)
        go [] k f e = absurd (k refl)
        go (([], c) ∷ is) k f e = absurd (f c is refl)
        go ((j ∷ p, c) ∷ is) k f e =
            let (v, made) =
              change_at_mono dest as_dir (λ x. some (dir (prune es))) (some u) u0
                (λ x t q. (dir (prune es), refl)) free in
            let inner =
              sym (extract-extracted (j ∷ p, c) is (dir end))
              ∙ ap (λ js. extract js (dir end)) (sym e)
              ∙ extract-items_of es end d (Apart-end es) in
            (
              v,
              extract-extracted (onto dest (j ∷ p, c)) (map (onto dest) is) u
                  ∙ extracted-onto dest (j ∷ p, c) is (some u)
                  ∙ change_at-absent dest (extracted (j ∷ p, c) is) u vacant
                  ∙ ap (λ x. change_at dest (λ y. x) (some u)) (extracted-none j p c is ∙ inner)
                  ∙ made,
              made,
            )

    -- A directory that is packed on one machine and unpacked on another, if the machines refuse
    -- nothing and package zip reads what it has written: both calls return no error, and at the place
    -- of the unpacking, where nothing stood, stands the tree without what cannot be read, without
    -- directories that hold no file, and with files for links. Nothing else has changed there.
    pub unzip-zip :
        ((files : Archive) → format.unpack (format.pack files) ≡ ok (map plain files))
        → (es : Entries) → Distinct es
        → Named es
        → items_of es ≢ []
        → (src z : FilePath) (t t1 : Node) → write_at z (overwrite []) (some t) ≡ some t1
        → stat src t1 ≡ some (dir es)
        → (z' dest : FilePath) (u u0 : Node) → stat dest u ≡ none
        → mkdir_all dest u ≡ some u0
        → read_file z' u ≡ read_file z (zip faults format src z slash t).1
        → ((zip faults format src z slash t).0 ≡ ret none)
          × (v : Node) × (unzip faults format z' dest u ≡ (ret none, v))
          × (stat dest v ≡ some (dir (prune es)))
          × (change_at dest (λ x. some (dir (prune es))) (some u) ≡ some v)
    unfolding unzip
    unzip-zip law es d h some_file src z t t1 e f z' dest u u0 vacant free same =
        let (t2, zipped, bytes) = zip-packed src z es t t1 h e f in
        let (v, extracts, made) = extract-new dest es u u0 d some_file vacant free in
        let read : read_file z' u ≡ ok (packed es) =
          same ∙ ap (λ r. read_file z r.1) zipped ∙ bytes in
        let files : format.unpack (packed es) ≡ ok (map file_of (items_of es)) =
          law (map (named []) (items_of es)) ∙ ap ok (plain-named (items_of es)) in
        let body : unzip_files faults format dest (map file_of (items_of es)) u ≡ (ret tt, v) =
          unzip_files-extract faults quiet format dest (items_of es) u v (items_of-IsBelow es h)
            extracts in
        (
          ap (λ r. r.0) zipped,
          v,
          rw (read, files, body) refl,
          stat-change_at dest (dir (prune es)) (some u) v made,
          made,
        )
