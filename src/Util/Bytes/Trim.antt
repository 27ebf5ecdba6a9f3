-- ===== src/Util/Bytes/Trim.antt =====
-- What the trimming functions remove.
use flow_agent_x.Prelude.{
  ℕ, zero, suc, ◌+◌, ◌-◌, ◌<◌, ◌≡◌, ◌≢◌, ◌↔◌, ◌⊎◌, inl, inr, ◌∙◌, sym, ap, refl, true, false,
  Option, none, some, [], ◌∷◌, ◌++◌, arith, ltb, ◌==◌, ==_iff, if◌then◌else◌, Bool-cases, length,
  length-append, take, drop, Text,
}
use flow_agent_x.Util.Bytes.{
  byte_at, agrees, is_byte_start_with, can_trim, bytes_trim_right, last_agreement, trim_left_string,
}

byte_at-append : (r s : Text) (i : ℕ) → byte_at (r ++ s) (length r + i) ≡ byte_at s i
byte_at-append [] s i = let e : 0 + i ≡ i = omega arith in rw e refl
byte_at-append (c ∷ r) s i =
    let e : suc (length r) + i ≡ suc (length r + i) = omega arith in rw e (byte_at-append r s i)

can_trim-append : (r s : Text) (j : ℕ) → can_trim (r ++ s) s j ≡ true
unfolding can_trim
can_trim-append r s zero = refl
can_trim-append r s (suc j) =
    let e : length (r ++ s) - length s + j ≡ length r + j = omega (arith, length-append r s) in
    rw (e, byte_at-append r s j, (==_iff (byte_at s j) (byte_at s j)).1 refl)
      (can_trim-append r s j)

can_trim_at :
    (src trim : Text) (n j : ℕ)
    → can_trim src trim n ≡ true
    → j < n
    → byte_at src (length src - length trim + j) ≡ byte_at trim j
unfolding can_trim
can_trim_at src trim zero j h lt = absurd (omega arith)
can_trim_at src trim (suc n) j h lt =
    elim (Bool-cases (byte_at src (length src - length trim + n) == byte_at trim n)) [
      | inr e ↦ cc (rw e at h)
      | inl e ↦ elim (Bool-cases (j == n)) [
        | inl p ↦ let q = (==_iff j n).0 p in rw q ((==_iff _ _).0 e)
        | inr p ↦ can_trim_at src trim n j (rw e at h) (ground (arith, p))
      ]
    ]

-- Texts of one length with the same bytes are equal.
byte_at_ext :
    (s t : Text)
    → length s ≡ length t
    → ((i : ℕ) → i < length s → byte_at s i ≡ byte_at t i)
    → s ≡ t
byte_at_ext [] [] e h = refl
byte_at_ext [] (d ∷ t) e h = absurd (omega arith)
byte_at_ext (c ∷ s) [] e h = absurd (omega arith)
byte_at_ext (c ∷ s) (d ∷ t) e h =
    let first : c ≡ d = h 0 (omega arith) in
    let rest = byte_at_ext s t (omega arith) (λ i lt. h (suc i) (omega arith)) in cc (first, rest)

append-take-drop : (n : ℕ) (s : Text) → take n s ++ drop n s ≡ s
append-take-drop zero s = refl
append-take-drop (suc n) [] = refl
append-take-drop (suc n) (c ∷ s) = ap (λ t. c ∷ t) (append-take-drop n s)

length-drop : (n : ℕ) (s : Text) → length (drop n s) ≡ length s - n
length-drop zero s = omega arith
length-drop (suc n) [] = omega arith
length-drop (suc n) (c ∷ s) = omega (arith, length-drop n s)

byte_at-drop : (n i : ℕ) (s : Text) → byte_at (drop n s) i ≡ byte_at s (n + i)
byte_at-drop zero i s = let e : 0 + i ≡ i = omega arith in rw e refl
byte_at-drop (suc n) i [] = refl
byte_at-drop (suc n) i (c ∷ s) =
    let e : suc n + i ≡ suc (n + i) = omega arith in rw e (byte_at-drop n i s)

-- `BytesTrimRight` removes `trim` where the bytes end in it, once, and nothing else.
pub bytes_trim_right_lem :
    (src trim : Text)
    → (bytes_trim_right src trim ++ trim ≡ src)
      ⊎ ((bytes_trim_right src trim ≡ src) × ((r : Text) → r ++ trim ≢ src))
unfolding bytes_trim_right
bytes_trim_right_lem src trim = elim (Bool-cases (ltb (length src) (length trim))) [
  | inl e ↦ inr (rw e refl, λ r h. ground (arith, ap length h, length-append r trim))
  | inr e ↦ elim (Bool-cases (can_trim src trim (length trim))) [
    | inl f ↦
        let n = length src - length trim in
        let tail : drop n src ≡ trim =
          byte_at_ext (drop n src) trim (ground (arith, length-drop n src)) (λ i lt.
            byte_at-drop n i src
            ∙ can_trim_at src trim (length trim) i f (ground (arith, length-drop n src))) in
        inl (rw (e, f) (ap (λ t. take n src ++ t) (sym tail) ∙ append-take-drop n src))
    | inr f ↦ inr (
      rw (e, f) refl,
      λ r h. cc (can_trim-append r trim (length trim), ap (λ t. can_trim t trim (length trim)) h),
    )
  ]
]

last_agreement_end :
    (i : ℕ) (index : Option ℕ) (p q : Text) (c : ℕ) (s : Text)
    → length p ≡ length q
    → last_agreement i index (q ++ c ∷ s) (p ++ c ∷ []) ≡ some (i + length p)
unfolding last_agreement
last_agreement_end i index [] [] c s e = rw ((==_iff c c).1 refl) (ap some (omega arith))
last_agreement_end i index [] (y ∷ q) c s e = absurd (omega arith)
last_agreement_end i index (x ∷ p) [] c s e = absurd (omega arith)
last_agreement_end i index (x ∷ p) (y ∷ q) c s e =
    last_agreement_end (i + 1) (if y == x then some i else index) p q c s (omega arith)
    ∙ ap some (omega arith)

-- `TrimLeftString` removes the first bytes, as many as `trim` has, from every text that agrees with
-- `trim` in the last of these bytes, whatever the others are: from a text that begins with `trim`,
-- and also from others.
pub trim_left_string_lem :
    (p q : Text) (c : ℕ) (s : Text)
    → length p ≡ length q
    → trim_left_string (q ++ c ∷ s) (p ++ c ∷ []) ≡ s
unfolding trim_left_string
trim_left_string_lem p q c s e =
    rw (short, last_agreement_end 0 none p q c s e)
      (ap (λ n. drop n (q ++ c ∷ s)) index ∙ dropped q)
  where
    short : ltb (length (q ++ c ∷ s)) (length (p ++ c ∷ [])) ≡ false
    short = ground (arith, length-append q (c ∷ s), length-append p (c ∷ []))

    index : 0 + length p + 1 ≡ suc (length q)
    index = omega arith

    dropped : (q : Text) → drop (suc (length q)) (q ++ c ∷ s) ≡ s
    dropped [] = refl
    dropped (y ∷ q) = dropped q

-- `IsByteStartWith` holds exactly of the texts that begin with `start`.
pub is_byte_start_with_iff :
    (src start : Text) → (is_byte_start_with src start ≡ true) ↔ ((r : Text) × (start ++ r ≡ src))
unfolding is_byte_start_with
is_byte_start_with_iff src start = elim (Bool-cases (ltb (length src) (length start))) [
  | inl e ↦
      (λ h. cc (rw e at h), λ (r, p). absurd (ground (arith, ap length p, length-append start r)))
  | inr e ↦ rw e (begins src start, λ (r, p). rw (← p) (agreed start r))
]
  where
    begins : (src start : Text) → agrees src start ≡ true → (r : Text) × (start ++ r ≡ src)
    begins src [] h = (src, refl)
    begins [] (d ∷ start) h = absurd (unfold agrees in cc)
    begins (c ∷ src) (d ∷ start) h = elim (Bool-cases (c == d)) [
      | inl e ↦
          let (r, p) = begins src start (unfold agrees in rw e at h) in
          (r, cc ((==_iff c d).0 e, p))
      | inr e ↦ absurd (unfold agrees in cc (rw e at h))
    ]

    agreed : (start r : Text) → agrees (start ++ r) start ≡ true
    agreed [] r = unfold agrees in refl
    agreed (d ∷ start) r = unfold agrees in rw ((==_iff d d).1 refl) (agreed start r)
