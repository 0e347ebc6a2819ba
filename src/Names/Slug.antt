-- ===== src/Names/Slug.antt =====
-- The texts that `normalize_name` of ontology/names.py returns, and its fixed points.
use mathlib.Core.Path.{subst}
use segnog.Prelude.{
  ℕ, Bool, true, false, List, [], ◌∷◌, ◌≡◌, refl, ◌&&◌, map, All, All-map, ◌↔◌, Bool-cases, inl,
  inr, arith,
}
use segnog.Names.{
  is_space, is_dash, is_slug_char, lstrip, put_unless, rstrip, hyphenate, keep_slug, squeeze,
  normalize_name,
}

-- No two dashes stand side by side.
abbrev pub NoDouble : List ℕ → Type 0
NoDouble [] = Unit
NoDouble (c ∷ []) = Unit
NoDouble (c ∷ d ∷ s) = ((is_dash c && is_dash d) ≡ false) × NoDouble (d ∷ s)

pub begins : (ℕ → Bool) → List ℕ → Bool
begins p [] = false
begins p (c ∷ s) = p c

pub ends : (ℕ → Bool) → List ℕ → Bool
ends p [] = false
ends p (c ∷ []) = p c
ends p (c ∷ d ∷ s) = ends p (d ∷ s)

-- Lower-case letters, digits and single dashes, with no dash at either end.
pub record IsSlug (s : List ℕ) : Type 0 where
  pub chars : All (λ c. is_slug_char c ≡ true) s
  pub single : NoDouble s
  pub front : begins is_dash s ≡ false
  pub back : ends is_dash s ≡ false

module _ (p : ℕ → Bool) where
  begins-lstrip : (s : List ℕ) → begins p (lstrip p s) ≡ false
  unfolding lstrip begins
  begins-lstrip [] = refl
  begins-lstrip (c ∷ s) = ground (arith, begins-lstrip s)

  ends-put_unless : (c : ℕ) (s : List ℕ) → ends p s ≡ false → ends p (put_unless (p c) c s) ≡ false
  unfolding put_unless ends
  ends-put_unless c [] h = ground arith
  ends-put_unless c (d ∷ s) h = h

  ends-rstrip : (s : List ℕ) → ends p (rstrip p s) ≡ false
  unfolding rstrip ends
  ends-rstrip [] = refl
  ends-rstrip (c ∷ s) = unfold rstrip in ends-put_unless c (rstrip p s) (ends-rstrip s)

  begins-put_unless :
      (q : ℕ → Bool) (drop : Bool) (c : ℕ) (s : List ℕ)
      → q c ≡ false
      → begins q (put_unless drop c s) ≡ false
  unfolding put_unless begins
  begins-put_unless q drop c [] h = ground arith
  begins-put_unless q drop c (d ∷ s) h = h

  begins-rstrip : (q : ℕ → Bool) (s : List ℕ) → begins q s ≡ false → begins q (rstrip p s) ≡ false
  unfolding rstrip begins
  begins-rstrip q [] h = refl
  begins-rstrip q (c ∷ s) h = begins-put_unless q (p c) c (rstrip p s) h

  All-lstrip : (P : ℕ → Type 0) (s : List ℕ) → All P s → All P (lstrip p s)
  unfolding lstrip
  All-lstrip P [] h = tt
  All-lstrip P (c ∷ s) h = elim (Bool-cases (p c)) [
    | inl e ↦ rw e (All-lstrip P s h.1)
    | inr e ↦ rw e h
  ]

  All-put_unless :
      (P : ℕ → Type 0) (drop : Bool) (c : ℕ) (s : List ℕ)
      → P c
      → All P s
      → All P (put_unless drop c s)
  unfolding put_unless
  All-put_unless P true c [] h k = tt
  All-put_unless P false c [] h k = (h, tt)
  All-put_unless P drop c (d ∷ s) h k = (h, k)

  All-rstrip : (P : ℕ → Type 0) (s : List ℕ) → All P s → All P (rstrip p s)
  unfolding rstrip
  All-rstrip P [] h = tt
  All-rstrip P (c ∷ s) h = All-put_unless P (p c) c (rstrip p s) h.0 (All-rstrip P s h.1)

  NoDouble-tail : (c : ℕ) (s : List ℕ) → NoDouble (c ∷ s) → NoDouble s
  NoDouble-tail c [] h = tt
  NoDouble-tail c (d ∷ s) h = h.1

  NoDouble-lstrip : (s : List ℕ) → NoDouble s → NoDouble (lstrip p s)
  unfolding lstrip
  NoDouble-lstrip [] h = tt
  NoDouble-lstrip (c ∷ s) h = elim (Bool-cases (p c)) [
    | inl e ↦ rw e (NoDouble-lstrip s (NoDouble-tail c s h))
    | inr e ↦ rw e h
  ]

  NoDouble-put_unless :
      (drop drop' : Bool) (c d : ℕ) (s : List ℕ)
      → (is_dash c && is_dash d) ≡ false
      → NoDouble (put_unless drop' d s)
      → NoDouble (put_unless drop c (put_unless drop' d s))
  unfolding put_unless
  NoDouble-put_unless true true c d [] apart h = tt
  NoDouble-put_unless false true c d [] apart h = tt
  NoDouble-put_unless drop false c d [] apart h = (apart, tt)
  NoDouble-put_unless drop drop' c d (e ∷ s) apart h = (apart, h)

  NoDouble-rstrip : (s : List ℕ) → NoDouble s → NoDouble (rstrip p s)
  unfolding rstrip
  NoDouble-rstrip [] h = tt
  NoDouble-rstrip (c ∷ []) h = single_put (p c) c
    where
      single_put : (b : Bool) (x : ℕ) → NoDouble (put_unless b x [])
      single_put true x = unfold put_unless in tt
      single_put false x = unfold put_unless in tt
  NoDouble-rstrip (c ∷ d ∷ s) h =
      NoDouble-put_unless (p c) (p d) c d (rstrip p s) h.0 (NoDouble-rstrip (d ∷ s) h.1)

  -- A text with no character to strip at its ends is left alone.
  lstrip_fixed : (s : List ℕ) → begins p s ≡ false → lstrip p s ≡ s
  unfolding lstrip begins
  lstrip_fixed [] h = refl
  lstrip_fixed (c ∷ s) h = ground arith

  rstrip_fixed : (s : List ℕ) → ends p s ≡ false → rstrip p s ≡ s
  unfolding rstrip ends put_unless
  rstrip_fixed [] h = refl
  rstrip_fixed (c ∷ []) h = ground arith
  rstrip_fixed (c ∷ d ∷ s) h = rw (rstrip_fixed (d ∷ s) h)

  begins_none : (s : List ℕ) → All (λ c. p c ≡ false) s → begins p s ≡ false
  unfolding begins
  begins_none [] h = refl
  begins_none (c ∷ s) h = h.0

  ends_none : (s : List ℕ) → All (λ c. p c ≡ false) s → ends p s ≡ false
  unfolding ends
  ends_none [] h = refl
  ends_none (c ∷ []) h = h.0
  ends_none (c ∷ d ∷ s) h = ends_none (d ∷ s) h.1

abbrev Slugs : List ℕ → Type 0
Slugs = All (λ c. is_slug_char c ≡ true)

keep_slug-Slugs : (s : List ℕ) → Slugs (keep_slug s)
unfolding keep_slug
keep_slug-Slugs [] = tt
keep_slug-Slugs (c ∷ s) = elim (Bool-cases (is_slug_char c)) [
  | inl e ↦ rw e (e, keep_slug-Slugs s)
  | inr e ↦ rw e (keep_slug-Slugs s)
]

squeeze-Slugs : (s : List ℕ) → Slugs s → Slugs (squeeze s)
unfolding squeeze
squeeze-Slugs [] h = tt
squeeze-Slugs (c ∷ []) h = h
squeeze-Slugs (c ∷ d ∷ s) h = elim (Bool-cases (is_dash c && is_dash d)) [
  | inl e ↦ rw e (squeeze-Slugs (d ∷ s) h.1)
  | inr e ↦ rw e (h.0, squeeze-Slugs (d ∷ s) h.1)
]

-- The first character of a squeezed text is that of the text, as far as dashes go.
squeeze-cons : (d : ℕ) (s : List ℕ) → (t : List ℕ) × (squeeze (d ∷ s) ≡ d ∷ t)
unfolding squeeze is_dash
squeeze-cons d [] = ([], refl)
squeeze-cons d (e ∷ s) = elim (Bool-cases (is_dash d && is_dash e)) [
  | inl both ↦
      let (t, q) = squeeze-cons e s in let same : d ≡ e = ground arith in (t, rw (both, q, same))
  | inr apart ↦ (squeeze (e ∷ s), rw apart)
]

squeeze-NoDouble : (s : List ℕ) → NoDouble (squeeze s)
unfolding squeeze
squeeze-NoDouble [] = tt
squeeze-NoDouble (c ∷ []) = tt
squeeze-NoDouble (c ∷ d ∷ s) = elim (Bool-cases (is_dash c && is_dash d)) [
  | inl e ↦ rw e (squeeze-NoDouble (d ∷ s))
  | inr e ↦
      let (t, q) = squeeze-cons d s in
      let rest : NoDouble (d ∷ t) = rw q at (squeeze-NoDouble (d ∷ s)) in rw (e, q) (e, rest)
]

squeeze_fixed : (s : List ℕ) → NoDouble s → squeeze s ≡ s
unfolding squeeze
squeeze_fixed [] h = refl
squeeze_fixed (c ∷ []) h = refl
squeeze_fixed (c ∷ d ∷ s) h = rw (h.0, squeeze_fixed (d ∷ s) h.1)

keep_slug_fixed : (s : List ℕ) → Slugs s → keep_slug s ≡ s
unfolding keep_slug
keep_slug_fixed [] h = refl
keep_slug_fixed (c ∷ s) h = rw (h.0, keep_slug_fixed s h.1)

hyphenate-slug : (c : ℕ) → is_slug_char c ≡ true → hyphenate c ≡ c
unfolding hyphenate is_slug_char
hyphenate-slug c h = ground arith

hyphenate_fixed : (s : List ℕ) → Slugs s → map hyphenate s ≡ s
hyphenate_fixed [] h = refl
hyphenate_fixed (c ∷ s) h = cc (hyphenate-slug c h.0, hyphenate_fixed s h.1)

not_space : (c : ℕ) → is_slug_char c ≡ true → is_space c ≡ false
unfolding is_space is_slug_char
not_space c h = ground arith

-- Whatever `lower` does, a normalized name is a slug.
pub normalize_name-IsSlug :
    (lower : List ℕ → List ℕ) (raw : List ℕ) → IsSlug (normalize_name lower raw)
unfolding normalize_name
normalize_name-IsSlug lower raw =
    let kept = keep_slug (map hyphenate (rstrip is_space (lstrip is_space (lower raw)))) in
    let front = lstrip is_dash (squeeze kept) in
    record {
      chars =
          All-rstrip is_dash _ front
            (All-lstrip is_dash _ (squeeze kept) (squeeze-Slugs kept (keep_slug-Slugs _)));
      single =
          NoDouble-rstrip is_dash front
            (NoDouble-lstrip is_dash (squeeze kept) (squeeze-NoDouble kept));
      front = begins-rstrip is_dash is_dash front (begins-lstrip is_dash (squeeze kept));
      back = ends-rstrip is_dash front;
    }

normalize_name_fixed :
    (lower : List ℕ → List ℕ) (s : List ℕ) → lower s ≡ s → IsSlug s → normalize_name lower s ≡ s
unfolding normalize_name
normalize_name_fixed lower s same slug =
    let no_space = All-map _ (λ c. is_space c ≡ false) s not_space slug.chars in
    rw (
      same,
      lstrip_fixed is_space s (begins_none is_space s no_space),
      rstrip_fixed is_space s (ends_none is_space s no_space),
      hyphenate_fixed s slug.chars,
      keep_slug_fixed s slug.chars,
      squeeze_fixed s slug.single,
      lstrip_fixed is_dash s slug.front,
      rstrip_fixed is_dash s slug.back,
    )

-- If `lower` leaves slugs alone, then normalizing a name twice is normalizing it once, and the
-- normalized names are exactly the slugs.
pub normalize_name_idem :
    (lower : List ℕ → List ℕ)
    → ((s : List ℕ) → IsSlug s → lower s ≡ s)
    → ((raw : List ℕ) → normalize_name lower (normalize_name lower raw) ≡ normalize_name lower raw)
      × ((s : List ℕ) → IsSlug s ↔ ((raw : List ℕ) × (normalize_name lower raw ≡ s)))
normalize_name_idem lower keeps = (
  λ raw.
      let slug = normalize_name-IsSlug lower raw in
      normalize_name_fixed lower (normalize_name lower raw) (keeps _ slug) slug,
  λ s. (
    λ slug. (s, normalize_name_fixed lower s (keeps s slug) slug),
    λ (raw, e). subst IsSlug e (normalize_name-IsSlug lower raw),
  ),
)
