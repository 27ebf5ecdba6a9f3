-- ===== src/Util/Files/Names.antt =====
-- The names of the files in a zip file, and the paths that Unzip makes of them.
use flow_agent_x.Prelude.{
  ◌≡◌, ◌≢◌, ◌∙◌, sym, ap, refl, List, [], ◌∷◌, ◌++◌, map, append_assoc, append-nil, All, All-append,
  Lacks, Text, codes, text_eq, text_eq_iff, arith,
}
use flow_agent_x.Prelude.Exec.{ok, err}
use flow_agent_x.Util.Files.{
  leaf, dir, Entries, end, entry, FilePath, components, clean_onto, join_path,
}
use flow_agent_x.Util.Files.Extract.{Item, under, items_of}

-- The components with separators between them.
abbrev pub path_text : FilePath → Text
path_text [] = []
path_text (k ∷ []) = k
path_text (k ∷ j ∷ p) = k ++ b'/' ∷ path_text (j ∷ p)

-- A name that a file can have.
abbrev pub IsName : Text → Type 0
IsName n = Lacks b'/' n × (n ≢ []) × (n ≢ codes ".") × (n ≢ codes "..")

abbrev pub Named : Entries → Type 0
Named end = Unit
Named (entry n (leaf link c) es) = IsName n × Named es
Named (entry n (dir cs) es) = IsName n × Named cs × Named es

-- A path below a directory: at least one component, all of them names.
abbrev pub IsBelow : Item → Type 0
IsBelow i = (i.0 ≢ []) × All IsName i.0

IsBelow-under :
    (n : Text) (is : List Item) → IsName n → All IsBelow is → All IsBelow (map (under n) is)
IsBelow-under n [] h a = tt
IsBelow-under n (i ∷ is) h a = (((λ e. cc), (h, a.0.1)), IsBelow-under n is h a.1)

pub items_of-IsBelow : (es : Entries) → Named es → All IsBelow (items_of es)
unfolding items_of
items_of-IsBelow end h = tt
items_of-IsBelow (entry n (leaf link (ok c)) es) h =
    (((λ e. cc), (h.0, tt)), items_of-IsBelow es h.1)
items_of-IsBelow (entry n (leaf link (err e)) es) h = items_of-IsBelow es h.1
items_of-IsBelow (entry n (dir cs) es) h =
    All-append IsBelow (map (under n) (items_of cs)) (items_of es)
      (IsBelow-under n (items_of cs) h.0 (items_of-IsBelow cs h.1)) (items_of-IsBelow es h.2)

components-Lacks : (k : Text) → Lacks b'/' k → components k ≡ k ∷ []
unfolding components
components-Lacks [] h = refl
components-Lacks (c ∷ k) h = rw (components-Lacks k h.1) (ground (arith, h.0))

components-append : (k s : Text) → Lacks b'/' k → components (k ++ b'/' ∷ s) ≡ k ∷ components s
unfolding components
components-append [] s h = refl
components-append (c ∷ k) s h = rw (components-append k s h.1) (ground (arith, h.0))

pub components-path_text : (p : FilePath) → p ≢ [] → All IsName p → components (path_text p) ≡ p
components-path_text [] h a = absurd (h refl)
components-path_text (k ∷ []) h a = components-Lacks k a.0.0
components-path_text (k ∷ j ∷ p) h a =
    components-append k (path_text (j ∷ p)) a.0.0
    ∙ ap (λ q. k ∷ q) (components-path_text (j ∷ p) (λ e. cc) a.1)

name_kept :
    (d : FilePath) (k : Text) (ks : FilePath)
    → IsName k
    → clean_onto d (k ∷ ks) ≡ clean_onto (d ++ k ∷ []) ks
unfolding clean_onto text_eq
name_kept d [] ks h = absurd (h.1 refl)
name_kept d (c ∷ k) ks h =
    ground (arith, text_eq_iff (c ∷ k) (codes "."), text_eq_iff (c ∷ k) (codes ".."), h.2, h.3)

pub clean_onto-names : (d p : FilePath) → All IsName p → clean_onto d p ≡ d ++ p
clean_onto-names d [] a = unfold clean_onto in sym (append-nil d)
clean_onto-names d (k ∷ p) a =
    name_kept d k p a.0 ∙ clean_onto-names (d ++ k ∷ []) p a.1 ∙ append_assoc d (k ∷ []) p

-- A file of the archive is unpacked at its path.
pub join_path-path_text :
    (dest : FilePath) (i : Item) → IsBelow i → join_path dest (path_text i.0) ≡ dest ++ i.0
unfolding join_path
join_path-path_text dest i h =
    ap (clean_onto dest) (components-path_text i.0 h.0 h.1) ∙ clean_onto-names dest i.0 h.1
