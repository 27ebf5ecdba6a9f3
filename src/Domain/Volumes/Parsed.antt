-- ===== src/Domain/Volumes/Parsed.antt =====
-- Reading a list of volumes that is written as `name=..,dest=..,script=..,image=..,init=..;...`.
use flow_agent_x.Prelude.{
  ℕ, ◌≡◌, refl, true, false, [], ◌∷◌, ◌++◌, List, append_assoc, arith, ◌==◌, if◌then◌else◌, Text,
  Lacks, codes, All-append, All, Bool,
}
use flow_agent_x.Prelude.Exec.{ret}
use flow_agent_x.Domain.Docker.{DockerVolume}
use flow_agent_x.Domain.Volumes.{split, get_value, volume_of, volumes_of, new_volumes_from_string}

split-Lacks : (b : ℕ) (s : Text) → Lacks b s → split b s ≡ s ∷ []
unfolding split
split-Lacks b [] h = refl
split-Lacks b (c ∷ s) h = ground (arith, split-Lacks b s h.1)

split-append : (b : ℕ) (s t : Text) → Lacks b s → split b (s ++ b ∷ t) ≡ s ∷ split b t
unfolding split
split-append b [] t h = ground arith
split-append b (c ∷ s) t h = ground (arith, split-append b s t h.1)

get_value-field : (k v : Text) → Lacks b'=' k → Lacks b'=' v → get_value (k ++ b'=' ∷ v) ≡ ret v
unfolding get_value
get_value-field k v hk hv = rw (get_value, split-append b'=' k v hk, split-Lacks b'=' v hv) refl

-- A text without the three separators.
abbrev pub IsPlain : Text → Type 0
IsPlain s = Lacks b';' s × Lacks b',' s × Lacks b'=' s

pub record IsPlainVolume (v : DockerVolume) : Type 0 where
  pub name : IsPlain v.name
  pub dest : IsPlain v.dest
  pub script : IsPlain v.script
  pub image : IsPlain v.image
  pub init : IsPlain v.init

-- A field, with what stands behind it.
abbrev pub field : Text → Text → Text
field k v = k ++ b'=' ∷ v

abbrev pub from_image : DockerVolume → Text
from_image v = field (codes "image") v.image ++ b',' ∷ field (codes "init") v.init

abbrev pub from_script : DockerVolume → Text
from_script v = field (codes "script") v.script ++ b',' ∷ from_image v

abbrev pub from_dest : DockerVolume → Text
from_dest v = field (codes "dest") v.dest ++ b',' ∷ from_script v

abbrev pub volume_text : DockerVolume → Text
volume_text v = field (codes "name") v.name ++ b',' ∷ from_dest v

abbrev pub volumes_text : DockerVolume → List DockerVolume → Text
volumes_text v [] = volume_text v
volumes_text v (w ∷ vs) = volume_text v ++ b';' ∷ volumes_text w vs

-- Decides that a byte does not stand in a literal.
absent : ℕ → Text → Bool
absent b [] = true
absent b (c ∷ s) = let rest = absent b s in if c == b then false else rest

absent-Lacks : (b : ℕ) (s : Text) → absent b s ≡ true → Lacks b s
unfolding absent
absent-Lacks b [] h = tt
absent-Lacks b (c ∷ s) h = (ground arith, absent-Lacks b s (ground arith))

field-Lacks : (b : ℕ) (k v : Text) → absent b (field k []) ≡ true → Lacks b v → Lacks b (field k v)
field-Lacks b k v h hv =
    let p : Lacks b ((k ++ b'=' ∷ []) ++ v) =
      All-append _ (k ++ b'=' ∷ []) v (absent-Lacks b (k ++ b'=' ∷ []) h) hv in
    rw (← append_assoc k (b'=' ∷ []) v) p

volume_text-Lacks : (v : DockerVolume) → IsPlainVolume v → Lacks b';' (volume_text v)
unfolding absent
volume_text-Lacks v h =
    join (field (codes "name") v.name) (from_dest v)
      (field-Lacks b';' (codes "name") v.name refl h.name.0)
      (join (field (codes "dest") v.dest) (from_script v)
        (field-Lacks b';' (codes "dest") v.dest refl h.dest.0)
        (join (field (codes "script") v.script) (from_image v)
          (field-Lacks b';' (codes "script") v.script refl h.script.0)
          (join (field (codes "image") v.image) (field (codes "init") v.init)
            (field-Lacks b';' (codes "image") v.image refl h.image.0)
            (field-Lacks b';' (codes "init") v.init refl h.init.0))))
  where
    join : (s t : Text) → Lacks b';' s → Lacks b';' t → Lacks b';' (s ++ b',' ∷ t)
    join s t p q = All-append _ s (b',' ∷ t) p (omega arith, q)

volume_text-split :
    (v : DockerVolume)
    → IsPlainVolume v
    → split b',' (volume_text v)
      ≡ field (codes "name") v.name
        ∷ field (codes "dest") v.dest
        ∷ field (codes "script") v.script
        ∷ field (codes "image") v.image
        ∷ field (codes "init") v.init
        ∷ []
unfolding absent
volume_text-split v h =
    rw
      (
        split-append b',' (field (codes "name") v.name) _
            (field-Lacks b',' (codes "name") v.name refl h.name.1),
        split-append b',' (field (codes "dest") v.dest) _
            (field-Lacks b',' (codes "dest") v.dest refl h.dest.1),
        split-append b',' (field (codes "script") v.script) _
            (field-Lacks b',' (codes "script") v.script refl h.script.1),
        split-append b',' (field (codes "image") v.image) _
            (field-Lacks b',' (codes "image") v.image refl h.image.1),
        split-Lacks b',' (field (codes "init") v.init)
            (field-Lacks b',' (codes "init") v.init refl h.init.1),
      )
      refl

volume_text-volume_of :
    (v : DockerVolume) → IsPlainVolume v → volume_of (split b',' (volume_text v)) ≡ ret v
unfolding volume_of absent
volume_text-volume_of v h =
    rw
      (
        volume_text-split v h,
        get_value-field (codes "name") v.name (absent-Lacks b'=' (codes "name") refl) h.name.2,
        get_value-field (codes "dest") v.dest (absent-Lacks b'=' (codes "dest") refl) h.dest.2,
        get_value-field (codes "script") v.script (absent-Lacks b'=' (codes "script") refl)
            h.script.2,
        get_value-field (codes "image") v.image (absent-Lacks b'=' (codes "image") refl) h.image.2,
        get_value-field (codes "init") v.init (absent-Lacks b'=' (codes "init") refl) h.init.2,
      )
      refl

volumes_text-volumes_of :
    (v : DockerVolume) (vs : List DockerVolume)
    → IsPlainVolume v
    → All IsPlainVolume vs
    → volumes_of (split b';' (volumes_text v vs)) ≡ ret (v ∷ vs)
unfolding volumes_of
volumes_text-volumes_of v [] h hs =
    rw (split-Lacks b';' (volume_text v) (volume_text-Lacks v h), volume_text-volume_of v h) refl
volumes_text-volumes_of v (w ∷ vs) h hs =
    rw
      (
        split-append b';' (volume_text v) (volumes_text w vs) (volume_text-Lacks v h),
        volume_text-volume_of v h,
        volumes_text-volumes_of w vs hs.0 hs.1,
      )
      refl

-- A list of volumes that is written out, with five fields for each volume and none of the three
-- separators in a value, is read back as it was.
pub new_volumes_from_string-volumes_text :
    (v : DockerVolume) (vs : List DockerVolume)
    → IsPlainVolume v
    → All IsPlainVolume vs
    → new_volumes_from_string (volumes_text v vs) ≡ ret (v ∷ vs)
unfolding new_volumes_from_string
new_volumes_from_string-volumes_text v [] h hs = volumes_text-volumes_of v [] h hs
new_volumes_from_string-volumes_text v (w ∷ vs) h hs = volumes_text-volumes_of v (w ∷ vs) h hs
